-- ===== src/Metrics/Rates.antt =====
-- Rates are fractions of one, and a summary warns exactly where it is not reliable.
use moaje_work.Prelude.{
  ℕ, zero, suc, ◌*◌, ◌≤◌, ◌≡◌, ◌↔◌, refl, ap, Bool, true, ◌&&◌, List, [], ◌∷◌, ◌++◌, map, ◌==◌, ltb,
  leb, if◌then◌else◌, count, count-le-length, length, arith,
}
use moaje_work.Decimal.Bounds.{round_half_even-le}
use moaje_work.Metrics.{
  FeatureEvent, AnswerTime, MetricsTables, Usage, QuestionDropoff, distinct, rate, usage_of,
  simulator_usage, recap_usage, dropoff_of, all_users, started_users, all_users, started_users,
  dropoffs, summary, few_users, no_onboarding,
}

rate-le : (part whole : ℕ) → part ≤ whole → rate part whole ≤ 10000
unfolding rate
rate-le part zero h = omega arith
rate-le part (suc n) h =
    let below = round_half_even-le (part * 10000) (suc n) 10000 (omega arith) (omega (arith, h)) in
    ground (arith, below)

length-distinct : (xs : List ℕ) → length (distinct xs) ≤ length xs
length-distinct [] = omega arith
length-distinct (x ∷ xs) = ground (arith, length-distinct xs)

length-map : {A B : Type 0} (f : A → B) (xs : List A) → length (map f xs) ≡ length xs
length-map f [] = refl
length-map f (x ∷ xs) = ap suc (length-map f xs)

-- At most one, and no more users than calls.
abbrev IsUsage : Usage → Type 0
IsUsage u = (u.repeat_rate ≤ 10000) × (u.users ≤ u.calls)

usage_of-IsUsage :
    (repeated : List FeatureEvent → ℕ → Bool) (events : List FeatureEvent)
    → IsUsage (usage_of repeated events)
unfolding usage_of
usage_of-IsUsage repeated events =
    let users = map (λ (e : FeatureEvent). e.user_id) events in
    (
      rate-le (count (repeated events) (distinct users)) (length (distinct users))
          (count-le-length (repeated events) (distinct users)),
      omega (arith, length-distinct users, length-map (λ (e : FeatureEvent). e.user_id) events),
    )

-- Each rate of the list is at most one.
abbrev AreRates : List QuestionDropoff → Type 0
AreRates [] = Unit
AreRates (d ∷ ds) = (d.dropoff_rate ≤ 10000) × AreRates ds

dropoffs-AreRates : (q n : ℕ) (answers : List AnswerTime) → AreRates (dropoffs q n answers)
unfolding dropoff_of
dropoffs-AreRates q zero answers = tt
dropoffs-AreRates q (suc n) answers =
    (rate-le _ _ (omega arith), dropoffs-AreRates (suc q) n answers)

warned :
    (users started : ℕ)
    → ((leb 10 users && ltb 0 started) ≡ true) ↔ (
        (if ltb users 10 then few_users users ∷ [] else [])
          ++ (if started == 0 then no_onboarding ∷ [] else [])
        ≡ [])
warned users started = (λ e. ground (arith, e), λ e. ground (arith, e))

-- In a summary the rates of repeated use and of leaving at a question are at most one, no feature
-- has more users than calls, and there is no warning exactly where the numbers count as reliable.
summary_rates :
    (since : ℕ) (tables : MetricsTables)
    → let r = summary since tables in
      IsUsage r.simulator
      × IsUsage r.recap
      × AreRates r.question_dropoff
      × ((r.is_reliable ≡ true) ↔ (r.warnings ≡ []))
unfolding summary simulator_usage recap_usage
summary_rates since tables = (
  usage_of-IsUsage _ _,
  usage_of-IsUsage _ _,
  dropoffs-AreRates 1 10 _,
  warned (all_users since tables) (started_users since tables),
)
