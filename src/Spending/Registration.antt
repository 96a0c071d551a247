-- ===== src/Spending/Registration.antt =====
-- A user has one profile, however often and from wherever it is asked for.
use moaje_work.Prelude.{
  ℕ, ◌≡◌, refl, ◌∙◌, ap, true, false, inl, inr, none, some, List, [], ◌∷◌, ◌++◌, arith, find, any,
  any-append, find-append_none, Option-cases, any_of_find,
}
use moaje_work.Spending.{Profile}
use moaje_work.Spending.ProfileStore.{
  default_profile, is_profile, create_profile, read_or_create, profile_from_db, cached_profile,
  get_or_create_profile, handle_user_registered,
}
use moaje_work.Database.{World, Environment}

-- No two rows have the same user.
abbrev pub OneEach : List Profile → Type 0
OneEach [] = Unit
OneEach (p ∷ ps) = (any (is_profile p.user_id) ps ≡ false) × OneEach ps

append-OneEach :
    (new : Profile) (ps : List Profile)
    → any (is_profile new.user_id) ps ≡ false
    → OneEach ps
    → OneEach (ps ++ new ∷ [])
append-OneEach new [] h u = (refl, tt)
append-OneEach new (p ∷ ps) h (alone, rest) =
    let split = any-append (is_profile p.user_id) ps (new ∷ []) in
    (ground (arith, split, alone, h), append-OneEach new ps (ground (arith, h)) rest)

create-OneEach :
    (env : Environment) (user : ℕ) (ps : List Profile)
    → OneEach (ps ++ env.concurrent_profiles)
    → OneEach (create_profile env user ps).1
unfolding create_profile
create-OneEach env user ps u =
    let seen = ps ++ env.concurrent_profiles in
    elim (Option-cases (find (is_profile user) seen)) [
      | inl absent ↦
          rw (absent, create_profile)
            (append-OneEach (default_profile user (some env.now)) seen
              (unfold default_profile in any_of_find (is_profile user) seen absent) u)
      | inr (p, there) ↦ rw (there, create_profile) u
    ]

read-OneEach :
    (env : Environment) (user : ℕ) (ps : List Profile)
    → OneEach ps
    → OneEach (ps ++ env.concurrent_profiles)
    → OneEach (read_or_create env user ps).1
unfolding read_or_create
read-OneEach env user ps u v = elim (Option-cases (find (is_profile user) ps)) [
  | inl absent ↦ rw (absent, read_or_create) (create-OneEach env user ps v)
  | inr (p, there) ↦ rw (there, read_or_create) u
]

-- If no two profiles have the same user, also with the rows that other transactions commit
-- meanwhile, none do after the call.
pub get_or_create-OneEach :
    (env : Environment) (user : ℕ) (w : World)
    → OneEach w.db.profiles
    → OneEach (w.db.profiles ++ env.concurrent_profiles)
    → OneEach (get_or_create_profile env user w).1.db.profiles
unfolding get_or_create_profile profile_from_db
get_or_create-OneEach env user w u v =
    let fresh = read-OneEach env user w.db.profiles u v in ground (arith, fresh)

created-found :
    (env : Environment) (user : ℕ) (ps : List Profile)
    → (p : Profile) × (find (is_profile user) (create_profile env user ps).1 ≡ some p)
unfolding create_profile
created-found env user ps =
    let seen = ps ++ env.concurrent_profiles in
    elim (Option-cases (find (is_profile user) seen)) [
      | inl absent ↦
          rw (absent, create_profile)
            (
              default_profile user (some env.now),
              find-append_none (is_profile user) seen _ absent
                  ∙ (unfold default_profile in ground arith),
            )
      | inr (p, there) ↦ rw (there, create_profile) (p, there)
    ]

read-found :
    (env : Environment) (user : ℕ) (ps : List Profile)
    → (p : Profile) × (find (is_profile user) (read_or_create env user ps).1 ≡ some p)
unfolding read_or_create
read-found env user ps = elim (Option-cases (find (is_profile user) ps)) [
  | inl absent ↦ rw (absent, read_or_create) (created-found env user ps)
  | inr (p, there) ↦ rw (there, read_or_create) (p, there)
]

read-kept :
    (env : Environment) (user : ℕ) (ps : List Profile) (p : Profile)
    → find (is_profile user) ps ≡ some p
    → (read_or_create env user ps).1 ≡ ps
unfolding read_or_create
read-kept env user ps p h = rw (h, read_or_create) refl

kept :
    (env : Environment) (user : ℕ) (w : World) (p : Profile)
    → find (is_profile user) w.db.profiles ≡ some p
    → (get_or_create_profile env user w).1.db ≡ w.db
unfolding get_or_create_profile profile_from_db
kept env user w p h = let same = read-kept env user w.db.profiles p h in ground (arith, same)

-- A profile that the cache gives changes nothing.
cached-kept :
    (env : Environment) (user : ℕ) (w : World) (p : Profile)
    → cached_profile user w ≡ some p
    → (get_or_create_profile env user w).1 ≡ w
unfolding get_or_create_profile
cached-kept env user w p h = rw (h, get_or_create_profile) refl

missed-found :
    (env : Environment) (user : ℕ) (w : World)
    → env.database_available ≡ true
    → cached_profile user w ≡ none
    → (p : Profile) × (find (is_profile user) (get_or_create_profile env user w).1.db.profiles
        ≡ some p)
unfolding get_or_create_profile profile_from_db
missed-found env user w db missed =
    let (p, there) = read-found env user w.db.profiles in (p, ground (arith, missed, db, there))

-- A registration that Kafka delivers again leaves the tables as they are, if the database answered
-- the first time.
pub registered_again :
    (env env' : Environment) (user : ℕ) (w : World)
    → env.database_available ≡ true
    → let w' = handle_user_registered env (some user) w in
      (handle_user_registered env' (some user) w').db ≡ w'.db
unfolding handle_user_registered
registered_again env env' user w db = elim (Option-cases (cached_profile user w)) [
  | inl missed ↦
      let (p, there) = missed-found env user w db missed in
      kept env' user (get_or_create_profile env user w).1 p there
  | inr (p, hit) ↦
      let first = cached-kept env user w p hit in
      let second = cached-kept env' user w p hit in rw first (ap (λ (x : World). x.db) second)
]
