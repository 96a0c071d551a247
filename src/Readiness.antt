-- ===== src/Readiness.antt =====
-- The readiness of app/services/ai/readiness_service.py. The progress of the goal is in
-- ten-thousandths and may be negative; the texts of the items are left out but for what the final
-- message says.
pub mod Bounds
pub mod Request
use moaje_work.Prelude.{
  ℕ, ◌+◌, ◌-◌, ◌*◌, ◌/◌, Bool, true, false, not, ◌&&◌, ◌||◌, Option, none, some, List, [], ◌∷◌, ltb,
  leb, ◌==◌, min, max, if◌then◌else◌, count, length, ℤ, pos, negsuc, pos_part, neg_part, sub_ℕ,
  min_ℤ, leb_ℤ,
}
use moaje_work.Decimal.{round_half_up, signed}
use moaje_work.Fds.{RiskLevel, low, medium, high}
use moaje_work.Onboarding.Catalog.{total_questions}

abbrev pub w_goal : ℕ
w_goal = 50

abbrev pub w_spending : ℕ
w_spending = 25

abbrev pub w_plan : ℕ
w_plan = 15

abbrev pub w_safety : ℕ
w_safety = 10

abbrev penalty_high : ℕ
penalty_high = 8

abbrev penalty_medium : ℕ
penalty_medium = 3

pub data ItemKey : Type 0 where
  goal spending plan safety : ItemKey

-- The score is none where the item cannot be judged.
pub record ReadinessItem : Type 0 where
  pub key : ItemKey
  pub weight : ℕ
  pub score : Option ℤ

-- The end of `_message`: how far the goal is reached.
pub data GoalStatus : Type 0 where
  all_saved : GoalStatus
  -- the progress whose percentage is shown
  partly_saved : ℤ → GoalStatus
  just_starting : GoalStatus

pub record ReadinessResult : Type 0 where
  pub percent : ℕ
  pub level : ℕ
  pub items : List ReadinessItem
  pub evaluated : List ItemKey
  pub excluded : List ItemKey
  pub goal_status : GoalStatus

-- Rows of the queries: the limits of AiAnalysisLog, and the levels of FdsInferenceLog, within the
-- last 90 days.
pub record History : Type 0 where
  pub daily_limits : List ℕ
  pub risk_levels : List RiskLevel

-- `_spending_score`
unfoldable pub spending_score : List ℕ → Option ℤ
spending_score [] = none
spending_score (v ∷ values) =
    let ok_days = count (λ x. ltb 0 x) (v ∷ values) in
    some (pos (round_half_up (ok_days * w_spending) (length (v ∷ values))))

abbrev pub is_high : RiskLevel → Bool
is_high high = true
is_high medium = false
is_high low = false

abbrev pub is_medium : RiskLevel → Bool
is_medium medium = true
is_medium high = false
is_medium low = false

-- `_safety_score`; `max(0, …)` is the subtraction that stops at 0.
unfoldable pub safety_score : List RiskLevel → Option ℤ
safety_score [] = none
safety_score (l ∷ levels) = some (
    pos (
      w_safety
      - count is_high (l ∷ levels) * penalty_high
      - count is_medium (l ∷ levels) * penalty_medium))

-- `min(goal_progress, 1) * 50`, rounded.
unfoldable pub goal_score : ℤ → ℤ
goal_score goal_progress =
    signed (λ n d. round_half_up (n * w_goal) d) (min_ℤ goal_progress (pos 10000)) 10000

unfoldable pub plan_score : ℕ → ℤ
plan_score answered_count =
    pos (round_half_up (min answered_count total_questions * w_plan) total_questions)

unfoldable pub readiness_items : ℤ → ℕ → History → List ReadinessItem
readiness_items goal_progress answered_count history =
    record { key = goal; weight = w_goal; score = some (goal_score goal_progress) }
    ∷ record { key = spending; weight = w_spending; score = spending_score history.daily_limits }
    ∷ record { key = plan; weight = w_plan; score = some (plan_score answered_count) }
    ∷ record { key = safety; weight = w_safety; score = safety_score history.risk_levels }
    ∷ []

-- The weights, and the positive and negative parts of the scores, of the judged items.
abbrev pub total_weight : List ReadinessItem → ℕ
total_weight [] = 0
total_weight (i ∷ items) = elim i.score [
  | none ↦ total_weight items
  | some _ ↦ i.weight + total_weight items
]

abbrev pub gained : List ReadinessItem → ℕ
gained [] = 0
gained (i ∷ items) = elim i.score [ none ↦ gained items | some s ↦ pos_part s + gained items ]

abbrev pub lost : List ReadinessItem → ℕ
lost [] = 0
lost (i ∷ items) = elim i.score [ none ↦ lost items | some s ↦ neg_part s + lost items ]

abbrev pub keys_where : Bool → List ReadinessItem → List ItemKey
keys_where judged [] = []
keys_where judged (i ∷ items) =
    let rest = keys_where judged items in
    elim i.score [
      | none ↦ if judged then rest else i.key ∷ rest
      | some _ ↦ if judged then i.key ∷ rest else rest
    ]

-- `max(0, min(100, int(total_score / total_weight * 100)))`: a negative sum ends at 0.
unfoldable pub percent_of : List ReadinessItem → ℕ
percent_of items =
    if ltb 0 (total_weight items)
    then min 100 ((gained items - lost items) * 100 / total_weight items)
    else 0

unfoldable pub level : ℕ → ℕ
level percent =
    if leb 90 percent
    then 5
    else if leb 70 percent
    then 4
    else if leb 45 percent
    then 3
    else if leb 20 percent
    then 2
    else 1

-- In percent, `goal_pct` is min(progress, 1) * 100.
unfoldable pub goal_status : ℤ → GoalStatus
goal_status goal_progress =
    let capped = min_ℤ goal_progress (pos 10000) in
    if leb_ℤ (pos 10000) capped
    then all_saved
    else if leb_ℤ (pos 100) capped
    then partly_saved capped
    else just_starting

unfoldable pub calculate : ℤ → ℕ → History → ReadinessResult
unfolding percent_of level goal_status
calculate goal_progress answered_count history =
    let items = readiness_items goal_progress answered_count history in
    let percent = percent_of items in
    record {
      percent = percent;
      level = level percent;
      items = items;
      evaluated = keys_where true items;
      excluded = keys_where false items;
      goal_status = goal_status goal_progress;
    }
