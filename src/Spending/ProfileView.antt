-- ===== src/Spending/ProfileView.antt =====
-- The endpoint `get_spending_profile` of app/api/v1/endpoints/spending.py and its response,
-- SpendingProfileResponse of app/schemas/spending.py.
use moaje_work.Prelude.{ℕ, Option, none, some, String}
use moaje_work.Spending.{Profile, ProfilePayload, profile_cache_payload}
use moaje_work.Spending.ProfileStore.{get_or_create_profile}
use moaje_work.Database.{World, Environment}
use moaje_work.Database.Cache.{get_spending_profile_cache, set_spending_profile_cache}

pub record SpendingProfileResponse : Type 0 where
  pub user_id : ℕ
  pub avg_daily_amount : ℕ
  pub peak_spend_hour : ℕ
  pub top_category : String
  pub risk_score_baseline : ℕ
  pub last_analyzed_at : ℕ

infixl 5 ◌>>=◌
abbrev ◌>>=◌ : {A B : Type 0} → Option A → (A → Option B) → Option B
none >>= f = none
some a >>= f = f a

-- `SpendingProfileResponse(**cached)`; none for a ValidationError.
unfoldable pub response_of_payload : ProfilePayload → Option SpendingProfileResponse
response_of_payload cached = do
  user_id ← cached.user_id
  avg_daily_amount ← cached.avg_daily_amount
  peak_spend_hour ← cached.peak_spend_hour
  top_category ← cached.top_category
  risk_score_baseline ← cached.risk_score_baseline
  last_analyzed_at ← cached.last_analyzed_at
  some (record {
    user_id = user_id;
    avg_daily_amount = avg_daily_amount;
    peak_spend_hour = peak_spend_hour;
    top_category = top_category;
    risk_score_baseline = risk_score_baseline;
    last_analyzed_at = last_analyzed_at;
  })

-- The response made from a profile; none where its time is missing, which the framework refuses
-- to send.
unfoldable pub response_of_profile : Profile → Option SpendingProfileResponse
response_of_profile p = elim p.last_analyzed_at [
  | none ↦ none
  | some t ↦ some (record {
    user_id = p.user_id;
    avg_daily_amount = p.avg_daily_amount;
    peak_spend_hour = p.peak_spend_hour;
    top_category = p.top_category;
    risk_score_baseline = p.risk_score_baseline;
    last_analyzed_at = t;
  })
]

-- What follows where the cache gives no response.
unfoldable pub response_of_service :
    Environment → ℕ → World → Option SpendingProfileResponse × World
response_of_service env user w =
    let (p, w') = get_or_create_profile env user w in
    (
      response_of_profile p,
      record w' { redis = set_spending_profile_cache user (profile_cache_payload p) w'.redis },
    )

-- The answer, none for a server error, and the world after it.
unfoldable pub get_spending_profile :
    Environment → ℕ → World → Option SpendingProfileResponse × World
unfolding response_of_service
get_spending_profile env user w = elim (get_spending_profile_cache user w.redis) [
  | none ↦ response_of_service env user w
  | some cached ↦ elim (response_of_payload cached) [
    | some response ↦ (some response, w)
    | none ↦ response_of_service env user w
  ]
]
