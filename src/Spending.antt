-- ===== src/Spending.antt =====
-- Rows of app/models/spending.py that the spending services keep, and the payload of the profile
-- cache (app/services/ai/spending_service.py). Amounts are in ten-thousandths of a won, times in
-- seconds of UTC, dates are day numbers.
pub mod DailyLimit
pub mod ProfileStore
pub mod Patterns
pub mod Peak
pub mod Registration
pub mod Coherence
pub mod Welford
pub mod Average
pub mod ProfileView
pub mod ProfileAnswers
use moaje_work.Prelude.{ℕ, Bool, Option, some, String}

pub record Profile : Type 0 where
  pub user_id : ℕ
  pub university_id : Option ℕ
  pub avg_daily_amount : ℕ
  pub std_daily_amount : ℕ
  pub tx_count : ℕ
  pub peak_spend_hour : ℕ
  pub top_category : String
  -- hundredths, Numeric(5, 2)
  pub risk_score_baseline : ℕ
  -- none on an object that no session has flushed
  pub last_analyzed_at : Option ℕ

-- The cached JSON object; a field that an older writer left out is none, and so is a
-- `last_analyzed_at` that `_parse_dt` cannot read.
pub record ProfilePayload : Type 0 where
  pub user_id : Option ℕ
  pub avg_daily_amount : Option ℕ
  pub std_daily_amount : Option ℕ
  pub tx_count : Option ℕ
  pub peak_spend_hour : Option ℕ
  pub top_category : Option String
  pub risk_score_baseline : Option ℕ
  pub last_analyzed_at : Option ℕ

pub data EventType : Type 0 where
  exam mt festival vacation employment semester_start semester_end midterm final holiday : EventType

pub record AcademicSchedule : Type 0 where
  pub id : ℕ
  pub user_id : ℕ
  pub event_type : EventType
  pub event_name : String
  pub start_date : ℕ
  pub end_date : ℕ
  pub expected_extra_spend : ℕ
  pub is_auto : Bool
  pub created_at : ℕ

pub record AnalysisLog : Type 0 where
  pub user_id : ℕ
  pub daily_limit : Option ℕ
  pub created_at : ℕ

pub record University : Type 0 where
  pub id : ℕ
  pub name : String
  pub is_active : Bool

pub record AcademicCalendar : Type 0 where
  pub university_id : ℕ
  pub year : ℕ
  pub semester : ℕ
  pub event_type : EventType
  pub event_name : String
  pub start_date : ℕ
  pub end_date : ℕ
  pub default_extra_spend : ℕ

-- `profile_cache_payload`
unfoldable pub profile_cache_payload : Profile → ProfilePayload
profile_cache_payload profile = record {
  user_id = some profile.user_id;
  avg_daily_amount = some profile.avg_daily_amount;
  std_daily_amount = some profile.std_daily_amount;
  tx_count = some profile.tx_count;
  peak_spend_hour = some profile.peak_spend_hour;
  top_category = some profile.top_category;
  risk_score_baseline = some profile.risk_score_baseline;
  last_analyzed_at = profile.last_analyzed_at;
}
