-- ===== src/AssetClient.antt =====
-- The client of Asset: app/grpc/asset_client.py. What reading a file gives and what Asset answers
-- are arguments.
pub mod Certificates
use moaje_work.Prelude.{
  ℕ, Bool, true, false, ◌&&◌, ◌||◌, Option, none, some, List, [], ◌∷◌, ◌==◌, leb, ℤ,
}
use moaje_work.Text.{strip}

-- The codes that `get_current_balance` tells apart.
pub data StatusCode : Type 0 where
  failed_precondition invalid_argument other_code : StatusCode

pub data BalanceStatus : Type 0 where
  balance_ok not_linked unavailable : BalanceStatus

pub record BalanceLookup : Type 0 where
  pub status : BalanceStatus
  pub amount : Option ℤ

unfoldable pub status_from_grpc_code : StatusCode → BalanceStatus
status_from_grpc_code failed_precondition = not_linked
status_from_grpc_code invalid_argument = unavailable
status_from_grpc_code other_code = unavailable

-- What calling Asset gives: no certificate to call with, a balance, a status, or another exception.
pub data CallResult : Type 0 where
  no_certificate : CallResult
  balance : ℤ → CallResult
  failed : StatusCode → CallResult
  disconnected : CallResult

unfoldable pub get_current_balance : CallResult → BalanceLookup
unfolding status_from_grpc_code
get_current_balance no_certificate = record { status = unavailable; amount = none }
get_current_balance (balance amount) = record { status = balance_ok; amount = some amount }
get_current_balance (failed code) = record { status = status_from_grpc_code code; amount = none }
get_current_balance disconnected = record { status = unavailable; amount = none }

pub data Label : Type 0 where
  ca client_certificate private_key : Label

-- What `read_bytes` gives for a path.
pub data PemFile : Type 0 where
  file_not_found permission_error os_error : PemFile
  content : List ℕ → PemFile

-- Why a certificate is unavailable: AssetCertificateUnavailable.
pub data Missing : Type 0 where
  no_path not_there not_allowed not_readable blank : Label → Missing

pub data Read {ℓ} (A : Type ℓ) : Type ℓ where
  good : A → Read A
  unavailable_for : Missing → Read A

-- `not data.strip()` of bytes.
abbrev pub is_blank : List ℕ → Bool
is_blank [] = true
is_blank (c ∷ cs) = ((leb 9 c && leb c 13) || c == 32) && is_blank cs

abbrev pub read_content : Label → List ℕ → Read (List ℕ)
read_content label bytes = elim (is_blank bytes) [
  | true ↦ unavailable_for (blank label)
  | false ↦ good bytes
]

abbrev pub read_file : Label → PemFile → Read (List ℕ)
read_file label file_not_found = unavailable_for (not_there label)
read_file label permission_error = unavailable_for (not_allowed label)
read_file label os_error = unavailable_for (not_readable label)
read_file label (content bytes) = read_content label bytes

-- `_read_pem` of a path, where the files of the container are a function of their paths.
unfoldable pub read_pem : (List ℕ → PemFile) → Label → List ℕ → Read (List ℕ)
read_pem files label [] = unavailable_for (no_path label)
read_pem files label (c ∷ path) = read_file label (files (c ∷ path))

pub record Credentials : Type 0 where
  pub root_certificates : List ℕ
  pub certificate_chain : List ℕ
  pub private_key : List ℕ

-- The paths of app/core/config.py.
pub record Paths : Type 0 where
  pub ca_path : List ℕ
  pub cert_path : List ℕ
  pub key_path : List ℕ

-- The three files, in the order in which they are read.
unfoldable pub read_credentials : Paths → (List ℕ → PemFile) → Read Credentials
read_credentials paths files = elim (read_pem files ca paths.ca_path) [
  | unavailable_for missing ↦ unavailable_for missing
  | good ca_pem ↦ elim (read_pem files client_certificate paths.cert_path) [
    | unavailable_for missing ↦ unavailable_for missing
    | good cert_pem ↦ elim (read_pem files private_key paths.key_path) [
      | unavailable_for missing ↦ unavailable_for missing
      | good key_pem ↦ good (record {
        root_certificates = ca_pem;
        certificate_chain = cert_pem;
        private_key = key_pem;
      })
    ]
  ]
]

-- With `_credentials` before and after.
unfoldable pub load_channel_credentials :
    Paths → (List ℕ → PemFile) → Option Credentials → Read Credentials × Option Credentials
load_channel_credentials paths files (some credentials) = (good credentials, some credentials)
load_channel_credentials paths files none = elim (read_credentials paths files) [
  | unavailable_for missing ↦ (unavailable_for missing, none)
  | good credentials ↦ (good credentials, some credentials)
]

-- `certificate_status`: none for "ok", and the detail of "not_mounted".
unfoldable pub certificate_status :
    Paths → (List ℕ → PemFile) → Option Credentials → Option Missing × Option Credentials
certificate_status paths files cached =
    let (loaded, cached') = load_channel_credentials paths files cached in
    (elim loaded [ good _ ↦ none | unavailable_for missing ↦ some missing ], cached')

-- The value of `grpc.ssl_target_name_override`, where there is one.
unfoldable pub channel_options : List ℕ → List (List ℕ)
channel_options override_authority = elim (strip override_authority) [
  | [] ↦ []
  | c ∷ cs ↦ (c ∷ cs) ∷ []
]

-- A call of Asset over a channel with these credentials and options: a balance or an exception.
pub data Reply : Type 0 where
  current_balance : ℤ → Reply
  rpc_error : StatusCode → Reply
  other_error : Reply

abbrev pub result_of : Reply → CallResult
result_of (current_balance amount) = balance amount
result_of (rpc_error code) = failed code
result_of other_error = disconnected

-- `get_current_balance` with the certificates that it reads.
unfoldable pub ask_balance :
    Paths
    → (List ℕ → PemFile)
    → List ℕ
    → (Credentials → List (List ℕ) → ℕ → Reply)
    → ℕ
    → Option Credentials
    → BalanceLookup × Option Credentials
unfolding load_channel_credentials channel_options get_current_balance
ask_balance paths files override_authority asset user cached =
    let (loaded, cached') = load_channel_credentials paths files cached in
    (
      get_current_balance (elim loaded [
        | unavailable_for missing ↦ no_certificate
        | good credentials ↦ result_of (asset credentials (channel_options override_authority) user)
      ]),
      cached',
    )
