-- ===== src/Spending/ProfileAnswers.antt =====
-- What the endpoint of the spending profile answers.
use moaje_work.Prelude.{
  ℕ, ◌≡◌, ◌≢◌, ◌↔◌, refl, ◌∙◌, ap, sym, inl, inr, true, false, ◌&&◌, Bool, none, some, List, [],
  ◌∷◌, ◌++◌, arith, find, Option-cases, Bool-cases,
}
use moaje_work.Spending.{Profile, ProfilePayload, profile_cache_payload}
use moaje_work.Spending.ProfileStore.{
  is_profile, default_profile, create_profile, read_or_create, profile_from_db, cached_profile,
  profile_of_cache, get_or_create_profile,
}
use moaje_work.Spending.ProfileView.{
  SpendingProfileResponse, response_of_payload, response_of_profile, response_of_service,
  get_spending_profile,
}
use moaje_work.Database.{World, Environment, Redis}
use moaje_work.Database.Cache.{get_spending_profile_cache, set_spending_profile_cache}

abbrev is_timed : Profile → Bool
is_timed p = elim p.last_analyzed_at [ none ↦ false | some _ ↦ true ]

abbrev all_timed : List Profile → Bool
all_timed [] = true
all_timed (p ∷ ps) = is_timed p && all_timed ps

find-timed :
    (f : Profile → Bool) (ps : List Profile) (p : Profile)
    → all_timed ps ≡ true
    → find f ps ≡ some p
    → is_timed p ≡ true
find-timed f [] p h e = cc
find-timed f (q ∷ ps) p h e = ground (arith, find-timed f ps p)

all_timed-append : (ps qs : List Profile) → all_timed (ps ++ qs) ≡ true → all_timed ps ≡ true
all_timed-append [] qs h = refl
all_timed-append (p ∷ ps) qs h = ground (arith, all_timed-append ps qs)

response_of_profile-timed : (p : Profile) → is_timed p ≡ true → response_of_profile p ≢ none
unfolding response_of_profile
response_of_profile-timed p h = ground (arith, h)

-- A row that is read or created has a time.
created-timed :
    (env : Environment) (user : ℕ) (ps : List Profile)
    → all_timed (ps ++ env.concurrent_profiles) ≡ true
    → is_timed (create_profile env user ps).0 ≡ true
unfolding create_profile default_profile
created-timed env user ps h =
    let seen = ps ++ env.concurrent_profiles in
    elim (Option-cases (find (is_profile user) seen)) [
      | inl absent ↦ rw (absent, create_profile) refl
      | inr (p, there) ↦ rw (there, create_profile) (find-timed (is_profile user) seen p h there)
    ]

read-timed :
    (env : Environment) (user : ℕ) (ps : List Profile)
    → all_timed (ps ++ env.concurrent_profiles) ≡ true
    → is_timed (read_or_create env user ps).0 ≡ true
unfolding read_or_create
read-timed env user ps h = elim (Option-cases (find (is_profile user) ps)) [
  | inl absent ↦ rw (absent, read_or_create) (created-timed env user ps h)
  | inr (p, there) ↦
      rw (there, read_or_create)
        (find-timed (is_profile user) ps p (all_timed-append ps env.concurrent_profiles h) there)
]

cache-timed :
    (user : ℕ) (cached : ProfilePayload) (p : Profile)
    → profile_of_cache user cached ≡ some p
    → is_timed p ≡ true
unfolding profile_of_cache
cache-timed user cached p h = ground (arith, h)

hit_timed :
    (user : ℕ) (w : World) (p : Profile) → cached_profile user w ≡ some p → is_timed p ≡ true
unfolding cached_profile
hit_timed user w p hit = elim (Option-cases (get_spending_profile_cache user w.redis)) [
  | inl absent ↦ let e = rw (absent, cached_profile) at hit in cc
  | inr (cached, there) ↦ cache-timed user cached p (let e = rw (there, cached_profile) at hit in e)
]

payload-timed :
    (user : ℕ) (cached : ProfilePayload) (r : SpendingProfileResponse)
    → response_of_payload cached ≡ some r
    → profile_of_cache user cached ≢ none
unfolding response_of_payload profile_of_cache
payload-timed user cached r h = ground (arith, h)

service-hit :
    (env : Environment) (user : ℕ) (w : World) (p : Profile)
    → cached_profile user w ≡ some p
    → (get_or_create_profile env user w) ≡ (p, w)
unfolding get_or_create_profile
service-hit env user w p hit = rw (hit, get_or_create_profile) refl

-- Without the cache the service has a profile with a time exactly where the database answers.
service-missed :
    (env : Environment) (user : ℕ) (w : World)
    → all_timed (w.db.profiles ++ env.concurrent_profiles) ≡ true
    → cached_profile user w ≡ none
    → is_timed (get_or_create_profile env user w).0 ≡ env.database_available
unfolding get_or_create_profile profile_from_db default_profile
service-missed env user w timed missed =
    let read = read-timed env user w.db.profiles timed in
    elim (Bool-cases env.database_available) [
      | inl up ↦ ground (arith, missed, up, read)
      | inr down ↦ ground (arith, missed, down)
    ]

untimed-refused : (p : Profile) → is_timed p ≡ false → response_of_profile p ≡ none
unfolding response_of_profile
untimed-refused p h = ground (arith, h)

service-fails :
    (env : Environment) (user : ℕ) (w : World)
    → all_timed (w.db.profiles ++ env.concurrent_profiles) ≡ true
    → ((response_of_service env user w).0 ≡ none)
      ↔ ((env.database_available ≡ false) × (cached_profile user w ≡ none))
unfolding response_of_service
service-fails env user w timed = elim (Option-cases (cached_profile user w)) [
  | inl missed ↦
      let known = service-missed env user w timed missed in
      let p = (get_or_create_profile env user w).0 in
      elim (Bool-cases env.database_available) [
        | inl up ↦
            let there = response_of_profile-timed p (known ∙ up) in
            ((λ e. absurd (there e)), λ (down, _). cc)
        | inr down ↦ ((λ e. (down, missed)), λ _. untimed-refused p (known ∙ down))
      ]
  | inr (p, hit) ↦
      let there = response_of_profile-timed p (hit_timed user w p hit) in
      (
        (λ e.
            absurd
              (there (sym (ap (λ x. response_of_profile x.0) (service-hit env user w p hit)) ∙ e))),
        λ (_, missed). cc,
      )
]

cached_profile-there :
    (user : ℕ) (w : World) (cached : ProfilePayload)
    → get_spending_profile_cache user w.redis ≡ some cached
    → cached_profile user w ≡ profile_of_cache user cached
unfolding cached_profile
cached_profile-there user w cached there = rw (there, cached_profile) refl

-- If every stored profile has a time, also those that others commit meanwhile, the endpoint answers
-- a server error exactly where the database does not answer and the cache holds no payload of the
-- user with a time: the profile of defaults that the service then gives cannot be sent.
pub profile_fails :
    (env : Environment) (user : ℕ) (w : World)
    → all_timed (w.db.profiles ++ env.concurrent_profiles) ≡ true
    → ((get_spending_profile env user w).0 ≡ none)
      ↔ ((env.database_available ≡ false) × (cached_profile user w ≡ none))
unfolding get_spending_profile
profile_fails env user w timed =
    let below = service-fails env user w timed in
    elim (Option-cases (get_spending_profile_cache user w.redis)) [
      | inl absent ↦ rw (absent, get_spending_profile) below
      | inr (cached, there) ↦
          let same = cached_profile-there user w cached there in
          elim (Option-cases (response_of_payload cached)) [
            | inl partial ↦ rw (there, get_spending_profile, partial) below
            | inr (r, whole) ↦
                let usable = payload-timed user cached r whole in
                rw (there, get_spending_profile, whole)
                  ((λ e. cc), λ (_, missed). absurd (usable (sym same ∙ missed)))
          ]
    ]

-- A payload that was made from a profile gives the response of the profile.
payload-response :
    (p : Profile) → response_of_payload (profile_cache_payload p) ≡ response_of_profile p
unfolding response_of_payload profile_cache_payload response_of_profile
payload-response p = ground arith

payload_shown :
    (env : Environment) (user : ℕ) (w : World) (p : Profile)
    → is_timed p ≡ true
    → get_spending_profile_cache user w.redis ≡ some (profile_cache_payload p)
    → (get_spending_profile env user w).0 ≡ response_of_profile p
unfolding get_spending_profile
payload_shown env user w p timed there = elim (Option-cases (response_of_profile p)) [
  | inl refused ↦ absurd (response_of_profile-timed p timed refused)
  | inr (r, shown) ↦
      let made : response_of_payload (profile_cache_payload p) ≡ some r =
        payload-response p ∙ shown in
      rw (there, get_spending_profile, made) (sym shown)
]

written_read :
    (user : ℕ) (cached payload : ProfilePayload) (r : Redis)
    → get_spending_profile_cache user r ≡ some cached
    → get_spending_profile_cache user (set_spending_profile_cache user payload r) ≡ some payload
unfolding get_spending_profile_cache set_spending_profile_cache
written_read user cached payload r h = ground (arith, h)

old_payload :
    (env : Environment) (user : ℕ) (w : World) (cached : ProfilePayload) (p : Profile)
    → get_spending_profile_cache user w.redis ≡ some cached
    → response_of_payload cached ≡ none
    → profile_of_cache user cached ≡ some p
    → get_spending_profile env user w ≡ (
      response_of_profile p,
      record w { redis = set_spending_profile_cache user (profile_cache_payload p) w.redis },
    )
unfolding get_spending_profile response_of_service
old_payload env user w cached p there partial made =
    let hit = service-hit env user w p (cached_profile-there user w cached there ∙ made) in
    rw (there, get_spending_profile, partial, hit) refl

-- Where the cache holds a payload of the user that has a time but lacks another field, the endpoint
-- shows the defaults for what it lacks and leaves the table alone, whether the database answers or
-- not, and the next call shows the same.
pub old_payload_stays :
    (env env' : Environment) (user : ℕ) (w : World) (cached : ProfilePayload) (p : Profile)
    → get_spending_profile_cache user w.redis ≡ some cached
    → response_of_payload cached ≡ none
    → profile_of_cache user cached ≡ some p
    → let (answer, w') = get_spending_profile env user w in
      (answer ≡ response_of_profile p)
      × (w'.db ≡ w.db)
      × ((get_spending_profile env' user w').0 ≡ answer)
old_payload_stays env env' user w cached p there partial made =
    rw (old_payload env user w cached p there partial made) (
      refl,
      refl,
      payload_shown env' user
          (record w { redis = set_spending_profile_cache user (profile_cache_payload p) w.redis }) p
          (cache-timed user cached p made)
          (written_read user cached (profile_cache_payload p) w.redis there),
    )
