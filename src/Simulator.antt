-- ===== src/Simulator.antt =====
-- Future Simulator: the data of app/services/ai/simulator_service.py and of
-- app/services/ai/cost_baseline.py. Amounts and ratios are in ten-thousandths; the inputs are not
-- negative, as app/schemas/simulator.py requires (`ge=0`), but for the current asset.
pub mod Baselines
pub mod Service
pub mod Goal
pub mod Adjust
pub mod Request
use moaje_work.Prelude.{ℕ, Option, List, String, ℤ}

pub data ValueKind : Type 0 where
  statistic derived assumption : ValueKind

-- The texts of a baseline (label, source, date, scope, url) are carried along, never computed
-- with, and are left out.
pub record Baseline : Type 0 where
  pub key : String
  pub amount : ℕ
  pub kind : ValueKind

pub record SimulationInput : Type 0 where
  pub housing_type : Option String
  pub work_env : Option String
  pub leisure_style : Option String
  pub monthly_income : Option ℕ
  pub monthly_housing : Option ℕ
  pub monthly_living : Option ℕ
  pub monthly_leisure : Option ℕ
  pub deposit : Option ℕ
  pub move_in_cost : Option ℕ
  pub current_asset : ℤ

pub record SimulationResult : Type 0 where
  pub deposit : ℕ
  pub move_in_cost : ℕ
  pub emergency_fund : ℕ
  pub target_amount : ℕ
  pub monthly_income : ℕ
  pub monthly_housing : ℕ
  pub monthly_living : ℕ
  pub monthly_leisure : ℕ
  pub monthly_expense : ℕ
  pub monthly_savable : ℤ
  pub current_asset : ℤ
  pub gap : ℕ
  pub months_to_goal : Option ℕ
  pub progress_rate : ℤ
  pub assumed_keys : List String
  pub baselines_used : List Baseline

-- The texts of `_adjustment_message`.
pub data AdjustmentMessage : Type 0 where
  expense_exceeds_income : AdjustmentMessage
  reached_in : ℕ → AdjustmentMessage
  sooner_by : ℕ → AdjustmentMessage
  later_by : ℕ → AdjustmentMessage
  no_change : AdjustmentMessage

pub record Adjustment : Type 0 where
  pub monthly_delta : ℤ
  pub base_monthly_savable : ℤ
  pub adjusted_monthly_savable : ℤ
  pub base_months_to_goal : Option ℕ
  pub adjusted_months_to_goal : Option ℕ
  pub months_saved : Option ℤ
  pub message : AdjustmentMessage

-- How `build_advice` writes a number of months.
pub data Period : Type 0 where
  years_and_months : ℕ → ℕ → Period
  whole_years : ℕ → Period
  whole_months : ℕ → Period

pub data Tip : Type 0 where
  fix_cashflow_first : Tip
  already_reached : Tip
  reach_after : Period → Tip
  assumed_items : ℕ → Tip
  kept_spending : String → Tip
