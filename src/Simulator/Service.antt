-- ===== src/Simulator/Service.antt =====
-- `SimulatorService` of app/services/ai/simulator_service.py. The division of two floats in
-- `_months_to_goal` is taken as exact: where the amounts have fractions of a won, the ceiling of
-- Python's quotient can be a month more.
use Prim.Native.String.{compare}
use Prim.Native.Nat.{Ordering}
use moaje_work.Prelude.{
  ℕ, ◌+◌, ◌-◌, ◌*◌, ◌/◌, ◌%◌, Bool, true, false, ◌&&◌, Option, none, some, List, [], ◌∷◌, ◌++◌,
  length, String, str_eq, ltb, leb, ◌==◌, if◌then◌else◌, ℤ, pos, pos_part, abs, ◌-ℤ◌, ltb_ℤ, leb_ℤ,
  min_ℤ,
}
use moaje_work.Decimal.{round_half_up, round_half_even, signed}
use moaje_work.Simulator.{
  ValueKind, statistic, derived, assumption, Baseline, SimulationInput, SimulationResult,
  Adjustment, AdjustmentMessage, expense_exceeds_income, reached_in, sooner_by, later_by, no_change,
  Period, years_and_months, whole_years, whole_months, Tip, fix_cashflow_first, already_reached,
  reach_after, assumed_items, kept_spending,
}
use moaje_work.Simulator.Baselines.{
  rir_ratio, housing_deposit, rent_deposit, leisure_monthly, leisure_factor, living_base_monthly,
  move_in_cost, expected_income, startup_income, emergency_months, get_or,
}

-- `_won`: a value of d parts to the won, rounded to a whole won, in ten-thousandths again.
unfoldable pub won : ℕ → ℕ → ℕ
won v d = 10000 * round_half_up v d

unfoldable pub won_ℤ : ℤ → ℤ
won_ℤ v = signed (λ n d. 10000 * round_half_up n d) v 10000

abbrev is_assumption : ValueKind → Bool
is_assumption assumption = true
is_assumption statistic = false
is_assumption derived = false

-- `_resolve`: the value, and the keys of the assumptions so far.
unfoldable pub resolve : Option ℕ → Baseline → List String → ℕ × List String
resolve (some v) baseline assumed = (v, assumed)
resolve none baseline assumed =
    (baseline.amount, if is_assumption baseline.kind then assumed ++ baseline.key ∷ [] else assumed)

abbrev pub is_with_family : Option String → Bool
is_with_family none = false
is_with_family (some h) = str_eq h "WITH_FAMILY"

unfoldable pub housing_cost : SimulationInput → ℕ → ℕ
housing_cost inp monthly_income = elim inp.monthly_housing [
  | some v ↦ v
  | none ↦
      if is_with_family inp.housing_type
      then 0
      else won (monthly_income * rir_ratio.amount) (10000 * 10000)
]

unfoldable pub leisure_cost : SimulationInput → ℕ
leisure_cost inp = elim inp.monthly_leisure [
  | some v ↦ v
  | none ↦
      won (leisure_monthly.amount * get_or inp.leisure_style 10000 leisure_factor) (10000 * 10000)
]

unfoldable pub settling_cost : SimulationInput → List String → ℕ × List String
settling_cost inp assumed = elim inp.move_in_cost [
  | some v ↦ (v, assumed)
  | none ↦
      if is_with_family inp.housing_type then (0, assumed) else resolve none move_in_cost assumed
]

-- `sorted(set(keys))`
insert_key : String → List String → List String
insert_key k [] = k ∷ []
insert_key k (j ∷ keys) =
    let later = insert_key k keys in
    elim (compare k j) [
      | Ordering.lt ↦ k ∷ j ∷ keys
      | Ordering.eq ↦ j ∷ keys
      | Ordering.gt ↦ j ∷ later
    ]

unfoldable pub sorted_set : List String → List String
unfolding insert_key
sorted_set [] = []
sorted_set (k ∷ keys) = insert_key k (sorted_set keys)

-- Whole months until the gap is saved: none if nothing can be saved.
unfoldable pub months_to_goal : ℕ → ℤ → Option ℕ
months_to_goal gap savable =
    if leb gap 0
    then some 0
    else if leb_ℤ savable (pos 0)
    then none
    else some ((gap + pos_part savable - 1) / pos_part savable)

unfoldable pub progress_rate : ℤ → ℕ → ℤ
progress_rate current_asset target =
    let progress : ℤ =
      if ltb 0 target
      then signed (λ n d. round_half_even (n * 10000) d) current_asset target
      else pos 10000 in
    min_ℤ progress (pos 10000)

-- What `build_result` settles first, before any rounding for the answer.
pub record Costs : Type 0 where
  pub monthly_income : ℕ
  pub deposit : ℕ
  pub monthly_housing : ℕ
  pub monthly_living : ℕ
  pub monthly_leisure : ℕ
  pub move_in : ℕ
  pub assumed : List String
  pub baselines_used : List Baseline

unfoldable pub settle_costs : SimulationInput → Costs
unfolding resolve
settle_costs inp =
    let income_bl = get_or inp.work_env startup_income expected_income in
    let deposit_bl = get_or inp.housing_type rent_deposit housing_deposit in
    let (monthly_income, assumed1) = resolve inp.monthly_income income_bl [] in
    let (deposit, assumed2) = resolve inp.deposit deposit_bl assumed1 in
    let (monthly_living, assumed3) = resolve inp.monthly_living living_base_monthly assumed2 in
    let (move_in, assumed4) = settling_cost inp assumed3 in
    record {
      monthly_income = monthly_income;
      deposit = deposit;
      monthly_housing = housing_cost inp monthly_income;
      monthly_living = monthly_living;
      monthly_leisure = leisure_cost inp;
      move_in = move_in;
      assumed =
          if is_assumption emergency_months.kind
          then assumed4 ++ emergency_months.key ∷ []
          else assumed4;
      baselines_used =
          income_bl ∷ deposit_bl ∷ rir_ratio ∷ living_base_monthly ∷ leisure_monthly ∷ move_in_cost
          ∷ emergency_months ∷ [];
    }

abbrev pub expense_of : Costs → ℕ
expense_of c = c.monthly_housing + c.monthly_living + c.monthly_leisure

-- The saving that the months are computed from, not rounded.
abbrev pub savable_of : Costs → ℤ
savable_of c = pos c.monthly_income -ℤ pos (expense_of c)

unfoldable pub project : ℤ → Costs → SimulationResult
project current_asset c =
    let emergency_fund = won (expense_of c * emergency_months.amount) (10000 * 10000) in
    let target_amount = won (c.deposit + c.move_in + emergency_fund) 10000 in
    let gap = pos_part (pos target_amount -ℤ current_asset) in
    record {
      deposit = won c.deposit 10000;
      move_in_cost = won c.move_in 10000;
      emergency_fund = emergency_fund;
      target_amount = target_amount;
      monthly_income = won c.monthly_income 10000;
      monthly_housing = won c.monthly_housing 10000;
      monthly_living = won c.monthly_living 10000;
      monthly_leisure = won c.monthly_leisure 10000;
      monthly_expense = won (expense_of c) 10000;
      monthly_savable = won_ℤ (savable_of c);
      current_asset = won_ℤ current_asset;
      gap = gap;
      months_to_goal = months_to_goal gap (savable_of c);
      progress_rate = progress_rate current_asset target_amount;
      assumed_keys = sorted_set c.assumed;
      baselines_used = c.baselines_used;
    }

unfoldable pub build_result : SimulationInput → SimulationResult
unfolding project
build_result inp = project inp.current_asset (settle_costs inp)

unfoldable pub adjustment_message : Option ℤ → Option ℕ → AdjustmentMessage
adjustment_message diff none = expense_exceeds_income
adjustment_message none (some adjusted) = reached_in adjusted
adjustment_message (some diff) (some adjusted) =
    if ltb_ℤ (pos 0) diff
    then sooner_by (abs diff)
    else if ltb_ℤ diff (pos 0)
    then later_by (abs diff)
    else no_change

unfoldable pub months_saved : Option ℕ → Option ℕ → Option ℤ
months_saved none adjusted = none
months_saved (some base) none = none
months_saved (some base) (some adjusted) = some (pos base -ℤ pos adjusted)

unfoldable pub simulate_adjustment : SimulationInput → ℤ → Adjustment
unfolding months_saved
simulate_adjustment inp monthly_delta =
    let base = build_result inp in
    let adjusted_savable = base.monthly_savable -ℤ monthly_delta in
    let adjusted_months = months_to_goal base.gap adjusted_savable in
    let diff = months_saved base.months_to_goal adjusted_months in
    record {
      monthly_delta = won_ℤ monthly_delta;
      base_monthly_savable = base.monthly_savable;
      adjusted_monthly_savable = won_ℤ adjusted_savable;
      base_months_to_goal = base.months_to_goal;
      adjusted_months_to_goal = adjusted_months;
      months_saved = diff;
      message = adjustment_message diff adjusted_months;
    }

unfoldable pub period : ℕ → Period
period m =
    let years = m / 12 in
    let months = m % 12 in
    if ltb 0 years && ltb 0 months
    then years_and_months years months
    else if ltb 0 years
    then whole_years years
    else whole_months months

kept_codes : List (String × Bool)
kept_codes =
    ("FOOD", true)
    ∷ ("HOBBY", true)
    ∷ ("TRAVEL", true)
    ∷ ("APPEARANCE", true)
    ∷ ("RELATION", true)
    ∷ ("LEARNING", true)
    ∷ []

pace_tips : SimulationResult → List Tip
unfolding period
pace_tips result =
    if leb_ℤ result.monthly_savable (pos 0)
    then fix_cashflow_first ∷ []
    else elim result.months_to_goal [
      | none ↦ []
      | some m ↦ if m == 0 then already_reached ∷ [] else reach_after (period m) ∷ []
    ]

assumed_tips : List String → List Tip
assumed_tips [] = []
assumed_tips (k ∷ keys) = assumed_items (length (k ∷ keys)) ∷ []

must_keep_tips : Option String → List Tip
unfolding kept_codes
must_keep_tips none = []
must_keep_tips (some code) =
    if get_or (some code) false kept_codes then kept_spending code ∷ [] else []

unfoldable pub build_advice : SimulationResult → Option String → List Tip
unfolding pace_tips assumed_tips must_keep_tips
build_advice result must_keep =
    pace_tips result ++ (assumed_tips result.assumed_keys ++ must_keep_tips must_keep)
