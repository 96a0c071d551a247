-- ===== src/Report.antt =====
-- The report card of a semester: `ReportService` of app/services/ai/report_service.py, and
-- `get_safety_score` of app/api/v1/endpoints/fds.py, which counts the same detections. This file
-- holds the data of app/schemas/spending.py and the grades. Rates are in ten-thousandths, ratios in
-- hundredths and coefficients in thousandths, the digits that the code keeps. Dates are day
-- numbers. The average of the database is taken as an exact fraction.
pub mod Limits
pub mod Detections
pub mod Events
pub mod Service
pub mod Bounds
pub mod Badges
use moaje_work.Prelude.{ℕ, Bool, Option, List, String, leb, if◌then◌else◌}
use moaje_work.Decimal.{Ratio}
use moaje_work.Spending.{EventType}

pub data Grade : Type 0 where
  grade_a grade_b grade_c grade_d not_evaluated : Grade

-- `_grade` with `GRADE_THRESHOLDS`.
unfoldable pub grade : ℕ → Grade
grade score =
    if leb 90 score
    then grade_a
    else if leb 75 score
    then grade_b
    else if leb 55 score
    then grade_c
    else grade_d

-- What stands before the parenthesis in a text of reasons: the name of its first reason.
pub data ReasonName : Type 0 where
  name_abnormal_amount name_abnormal_amount_fallback name_abnormal_time name_rapid_repeat :
      ReasonName
  name_personal_extreme name_personal_high name_personal_unusual : ReasonName
  name_ml_high_risk name_ml_medium_risk name_normal : ReasonName

pub record SpendingSummary : Type 0 where
  pub total_tx_count : ℕ
  -- in whole won
  pub avg_daily_limit : ℕ
  pub peak_spend_date : ℕ
  pub peak_spend_amount : Ratio
  pub lowest_spend_date : ℕ
  pub lowest_spend_amount : Ratio
  pub peak_spend_hour : ℕ
  pub top_category : String
  pub total_log_days : ℕ
  pub daily_limit_compliance_rate : ℕ
  pub daily_limit_cv : Option ℕ

pub record FdsSummary : Type 0 where
  pub total_detected : ℕ
  pub high_count : ℕ
  pub medium_count : ℕ
  pub safety_score : ℕ
  pub safety_grade : Grade
  -- none for "없음"
  pub top_reason : Option ReasonName

pub record EventSpendingStat : Type 0 where
  pub event_type : EventType
  pub event_name : String
  pub start_date : ℕ
  pub end_date : ℕ
  pub period_days : ℕ
  -- in whole won
  pub avg_daily_spend : ℕ
  pub total_spend : ℕ
  pub vs_normal_ratio : ℕ

pub record ScoreBreakdown : Type 0 where
  pub safety_score : ℕ
  pub daily_limit_score : ℕ
  pub event_score : ℕ
  pub regularity_score : ℕ
  pub total : ℕ

-- The texts of `_generate_summary`.
pub data SummaryMessage : Type 0 where
  not_enough_records perfect_semester : SummaryMessage
  -- the exam ratio
  costly_exams : ℕ → SummaryMessage
  steady_habits : SummaryMessage
  -- the number of HIGH detections
  detections_found : ℕ → SummaryMessage
  use_limit_more plan_together : SummaryMessage

-- The texts of `_generate_badges`.
pub data Badge : Type 0 where
  first_report_empty perfectly_safe safety_grade_a limit_keeper regular_spender : Badge
  busy_spender exam_saver exam_cafe_regular night_owl lunch_king evening_spender : Badge
  first_report : Badge

pub record SemesterReport : Type 0 where
  pub user_id : ℕ
  pub year : ℕ
  pub semester : ℕ
  pub period_start : ℕ
  pub period_end : ℕ
  pub spending : SpendingSummary
  pub fds : FdsSummary
  pub events : List EventSpendingStat
  pub score_breakdown : ScoreBreakdown
  pub overall_grade : Grade
  pub overall_score : ℕ
  pub summary_message : SummaryMessage
  pub badges : List Badge
