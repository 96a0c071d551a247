-- ===== src/Spending/ProfileStore.antt =====
-- `get_or_create_profile` of app/services/ai/spending_service.py: the cache, then the table, then
-- the defaults. A row that is created takes the time of the database.
use moaje_work.Prelude.{ℕ, Bool, Option, none, some, List, [], ◌∷◌, ◌++◌, ◌==◌, if◌then◌else◌, find}
use moaje_work.Spending.{Profile, ProfilePayload, profile_cache_payload}
use moaje_work.Database.{World, Environment}
use moaje_work.Database.Cache.{get_spending_profile_cache, set_spending_profile_cache}

-- `cached.get(key, default)`
abbrev or_default {ℓ} : {A : Type ℓ} → A → Option A → A
or_default d none = d
or_default d (some x) = x

-- What a new user starts with: 30,000 won a day, with a deviation of 15,000.
unfoldable pub default_profile : ℕ → Option ℕ → Profile
default_profile user_id last_analyzed_at = record {
  user_id = user_id;
  university_id = none;
  avg_daily_amount = 300000000;
  std_daily_amount = 150000000;
  tx_count = 0;
  peak_spend_hour = 12;
  top_category = "식비";
  risk_score_baseline = 10;
  last_analyzed_at = last_analyzed_at;
}

-- The object made from the cache; none where the payload has no time and is thrown away.
unfoldable pub profile_of_cache : ℕ → ProfilePayload → Option Profile
profile_of_cache user_id cached = elim cached.last_analyzed_at [
  | none ↦ none
  | some t ↦ some (record {
    user_id = user_id;
    university_id = none;
    avg_daily_amount = or_default 300000000 cached.avg_daily_amount;
    std_daily_amount = or_default 150000000 cached.std_daily_amount;
    tx_count = or_default 0 cached.tx_count;
    peak_spend_hour = or_default 12 cached.peak_spend_hour;
    top_category = or_default "식비" cached.top_category;
    risk_score_baseline = or_default 10 cached.risk_score_baseline;
    last_analyzed_at = some t;
  })
]

abbrev pub is_profile : ℕ → Profile → Bool
is_profile user_id p = p.user_id == user_id

-- The savepoint: the new row, unless another transaction has committed one meanwhile, which the
-- locking read then finds.
unfoldable pub create_profile : Environment → ℕ → List Profile → Profile × List Profile
create_profile env user_id profiles =
    let seen = profiles ++ env.concurrent_profiles in
    let fresh = default_profile user_id (some env.now) in
    elim (find (is_profile user_id) seen) [
      | some winner ↦ (winner, seen)
      | none ↦ (fresh, seen ++ fresh ∷ [])
    ]

unfoldable pub read_or_create : Environment → ℕ → List Profile → Profile × List Profile
unfolding create_profile
read_or_create env user_id profiles = elim (find (is_profile user_id) profiles) [
  | some p ↦ (p, profiles)
  | none ↦ create_profile env user_id profiles
]

unfoldable pub profile_from_db : Environment → ℕ → World → Profile × World
profile_from_db env user_id w =
    if env.database_available
    then (let (p, profiles) = read_or_create env user_id w.db.profiles in
        (
          p,
          record w {
            db = record w.db { profiles = profiles };
            redis = set_spending_profile_cache user_id (profile_cache_payload p) w.redis;
          },
        ))
    else (default_profile user_id none, w)

-- A payload that the cache gives, if it is one that can be used.
unfoldable pub cached_profile : ℕ → World → Option Profile
cached_profile user_id w = elim (get_spending_profile_cache user_id w.redis) [
  | none ↦ none
  | some cached ↦ profile_of_cache user_id cached
]

unfoldable pub get_or_create_profile : Environment → ℕ → World → Profile × World
get_or_create_profile env user_id w = elim (cached_profile user_id w) [
  | some p ↦ (p, w)
  | none ↦ profile_from_db env user_id w
]

-- `handle_user_registered` of app/kafka/consumer.py; the user is what `_to_user_id` has read.
unfoldable pub handle_user_registered : Environment → Option ℕ → World → World
handle_user_registered env none w = w
handle_user_registered env (some user_id) w = (get_or_create_profile env user_id w).1
