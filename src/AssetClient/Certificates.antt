-- ===== src/AssetClient/Certificates.antt =====
-- With which certificates Asset is called.
use moaje_work.Prelude.{
  ℕ, ◌≡◌, refl, false, ◌⊎◌, inl, inr, Option, none, some, List, [], ◌∷◌, Bool-cases,
}
use moaje_work.AssetClient.{
  unavailable, get_current_balance, PemFile, content, Label, ca, client_certificate, private_key,
  Read, good, unavailable_for, Missing, is_blank, read_content, read_file, file_not_found,
  permission_error, os_error, read_pem, Credentials, Paths, read_credentials,
  load_channel_credentials, channel_options, Reply, result_of, ask_balance,
}

-- All three parts have something in them.
pub record IsComplete (c : Credentials) : Type 0 where
  pub root : is_blank c.root_certificates ≡ false
  pub chain : is_blank c.certificate_chain ≡ false
  pub key : is_blank c.private_key ≡ false

abbrev pub IsCached : Option Credentials → Type 0
IsCached none = Unit {0}
IsCached (some c) = IsComplete c

Read-cases :
    {A : Type 0} (r : Read A) → ((m : Missing) × (r ≡ unavailable_for m)) ⊎ ((a : A) × (r ≡ good a))
Read-cases (good a) = inr (a, refl)
Read-cases (unavailable_for m) = inl (m, refl)

read_content-blank :
    (label : Label) (bytes read : List ℕ)
    → read_content label bytes ≡ good read
    → is_blank read ≡ false
read_content-blank label bytes read h = elim (Bool-cases (is_blank bytes)) [
  | inl empty ↦ let e = rw (empty, read_content) at h in cc
  | inr full ↦
      let e = rw (full, read_content) at h in let same : bytes ≡ read = cc in rw same at full
]

read_file-blank :
    (label : Label) (file : PemFile) (read : List ℕ)
    → read_file label file ≡ good read
    → is_blank read ≡ false
read_file-blank label file_not_found read h = cc
read_file-blank label permission_error read h = cc
read_file-blank label os_error read h = cc
read_file-blank label (content bytes) read h = read_content-blank label bytes read h

read_pem-blank :
    (files : List ℕ → PemFile) (label : Label) (path read : List ℕ)
    → read_pem files label path ≡ good read
    → is_blank read ≡ false
unfolding read_pem
read_pem-blank files label [] read h = cc
read_pem-blank files label (c ∷ path) read h = read_file-blank label (files (c ∷ path)) read h

read-IsComplete :
    (paths : Paths) (files : List ℕ → PemFile) (c : Credentials)
    → read_credentials paths files ≡ good c
    → IsComplete c
unfolding read_credentials
read-IsComplete paths files c h = elim (Read-cases (read_pem files ca paths.ca_path)) [
  | inl (m, bad) ↦ let e = rw (bad, read_credentials) at h in cc
  | inr (root, r) ↦ elim (Read-cases (read_pem files client_certificate paths.cert_path)) [
    | inl (m, bad) ↦ let e = rw (r, read_credentials, bad) at h in cc
    | inr (chain, s) ↦ elim (Read-cases (read_pem files private_key paths.key_path)) [
      | inl (m, bad) ↦ let e = rw (r, read_credentials, s, bad) at h in cc
      | inr (key, t) ↦
          let e = rw (r, read_credentials, s, t) at h in
          let roots : root ≡ c.root_certificates = cc in
          let chains : chain ≡ c.certificate_chain = cc in
          let keys : key ≡ c.private_key = cc in
          record {
            root = rw roots at (read_pem-blank files ca paths.ca_path root r);
            chain = rw chains at (read_pem-blank files client_certificate paths.cert_path chain s);
            key = rw keys at (read_pem-blank files private_key paths.key_path key t);
          }
    ]
  ]
]

-- As long as the kept credentials are complete they stay complete, and the answer depends on Asset
-- only through its replies to calls with complete credentials.
pub ask_balance-IsCached :
    (paths : Paths) (files : List ℕ → PemFile) (authority : List ℕ)
    (asset asset' : Credentials → List (List ℕ) → ℕ → Reply) (user : ℕ)
    (cached : Option Credentials)
    → IsCached cached
    → ((c : Credentials) (options : List (List ℕ))
        → IsComplete c
        → asset c options user ≡ asset' c options user)
    → let (lookup, cached') = ask_balance paths files authority asset user cached in
      (lookup ≡ (ask_balance paths files authority asset' user cached).0) × IsCached cached'
unfolding ask_balance load_channel_credentials
ask_balance-IsCached paths files authority asset asset' user (some c) kept same =
    (rw (same c (channel_options authority) kept) refl, kept)
ask_balance-IsCached paths files authority asset asset' user none kept same =
    elim (Read-cases (read_credentials paths files)) [
      | inl (m, bad) ↦ rw (bad, ask_balance, load_channel_credentials) (refl, tt)
      | inr (c, read) ↦
          let complete = read-IsComplete paths files c read in
          rw
            (
              read,
              ask_balance,
              load_channel_credentials,
              same c (channel_options authority) complete,
            )
            (refl, complete)
    ]

-- Without the certificates the balance counts as unavailable and nothing is kept; once they are
-- mounted the next call reaches Asset, and later calls do so with the same credentials, also when
-- the files are gone.
pub mounted_later :
    (paths : Paths) (before after gone : List ℕ → PemFile) (authority : List ℕ)
    (asset : Credentials → List (List ℕ) → ℕ → Reply) (user : ℕ) (m : Missing) (c : Credentials)
    → read_credentials paths before ≡ unavailable_for m
    → read_credentials paths after ≡ good c
    → let (first, cached) = ask_balance paths before authority asset user none in
      let (second, cached') = ask_balance paths after authority asset user cached in
      (first ≡ record { status = unavailable; amount = none })
      × (second ≡ get_current_balance (result_of (asset c (channel_options authority) user)))
      × (ask_balance paths gone authority asset user cached' ≡ (second, cached'))
unfolding ask_balance load_channel_credentials
mounted_later paths before after gone authority asset user m c h k =
    rw (h, ask_balance, load_channel_credentials, k) (refl, refl, refl)
