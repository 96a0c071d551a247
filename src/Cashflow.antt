-- ===== src/Cashflow.antt =====
-- Monthly totals that Asset publishes: the rows of app/models/spending.py (`MonthlyCashflow`,
-- `CategoryCashflow`) and the events of proto/events/asset_events.proto that
-- app/kafka/consumer.py reads, parsed. Amounts are signed, in ten-thousandths of a won.
pub mod Upsert
pub mod Handlers
pub mod Categories
pub mod Revision
pub mod Order
pub mod Refinement
use moaje_work.Prelude.{ℕ, String, List, ℤ}

pub record MonthlyCashflow : Type 0 where
  pub user_id : ℕ
  pub year_month : String
  pub revision : ℕ
  pub total_income : ℤ
  pub total_expense : ℤ
  pub total_transfer : ℤ

pub record CategoryCashflow : Type 0 where
  pub user_id : ℕ
  pub year_month : String
  pub category_code : String
  pub revision : ℕ
  pub amount : ℤ
