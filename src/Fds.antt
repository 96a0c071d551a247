-- ===== src/Fds.antt =====
-- Detection of abnormal transactions: app/services/fds/detector.py with the tables of
-- app/models/fds.py. This file holds the data; `Fds.Score` the three scores, `Fds.Detector` the
-- methods of `FdsDetector` on the tables. Reasons are kept as data: each stands for the text that
-- the code formats from it, and `reason_code` is their list, empty for "NORMAL".
pub mod Score
pub mod Detector
pub mod Bounds
pub mod Verdicts
pub mod Unique
pub mod Blacklist
use moaje_work.Prelude.{ℕ, Bool, Option, List, String}
use moaje_work.Decimal.{Ratio, frac}

pub data RiskLevel : Type 0 where
  low medium high : RiskLevel

pub data BlacklistReason : Type 0 where
  abnormal_amount abnormal_time rapid_repeat manual : BlacklistReason

-- The entries of `rule_reasons`, `personal_reasons` and `ml_reasons`, with what they print.
pub data Reason : Type 0 where
  rule_abnormal_amount : Ratio → ℕ → Reason
  rule_abnormal_amount_fallback : ℕ → ℕ → Reason
  rule_abnormal_time : ℕ → Reason
  rule_rapid_repeat : ℕ → Reason
  personal_extreme personal_high personal_unusual : Ratio → Reason
  ml_high_risk ml_medium_risk : Ratio → Reason

-- The texts of `_generate_message`.
pub data Message : Type 0 where
  detected : List Reason → Message
  caution : List Reason → Message
  normal : Message

-- `amount >= 0` and `hour <= 23` by the schema's `Field(ge=0, le=23)`. Times are seconds.
pub record DetectRequest : Type 0 where
  pub user_id : ℕ
  pub transaction_id : String
  pub amount : ℕ
  pub merchant : String
  pub hour : ℕ
  pub occurred_at : Option ℕ

pub record DetectResponse : Type 0 where
  pub user_id : ℕ
  pub transaction_id : String
  pub risk_score : ℕ
  pub risk_level : RiskLevel
  pub reason_code : List Reason
  pub is_alerted : Bool
  pub message : Message

-- `risk_score` is in ten-thousandths, as the column Numeric(5, 4).
pub record InferenceLog : Type 0 where
  pub user_id : ℕ
  pub transaction_id : String
  pub amount : ℕ
  pub merchant : String
  pub risk_score : ℕ
  pub risk_level : RiskLevel
  pub reason_code : List Reason
  pub is_alerted : Bool
  pub occurred_at : Option ℕ
  pub created_at : ℕ

pub record BlacklistEntry : Type 0 where
  pub user_id : ℕ
  pub reason : BlacklistReason
  pub description : String
  pub is_active : Bool
  pub registered_at : ℕ
  pub released_at : Option ℕ

-- The texts of the consumer's `_generate_alert_message`, with the amount that they show in whole won
-- and the merchant.
pub data AlertMessage : Type 0 where
  large_amount night_time rapid_payments model_suspicion suspicious : ℕ → String → AlertMessage

-- A row of fds_alert_log. The transaction id of an alert is "work-fds-{user_id}-{millis}".
pub record AlertLog : Type 0 where
  pub id : ℕ
  pub user_id : ℕ
  pub millis : ℕ
  pub amount : ℕ
  pub merchant : String
  pub risk_level : RiskLevel
  pub reason_code : List Reason
  pub message : AlertMessage
  pub is_confirmed : Bool
  pub confirmed_at : Option ℕ
  pub created_at : ℕ

-- What the pickled classifier reads, in the order of the feature vector.
pub record Features : Type 0 where
  pub amount_zscore : Ratio
  pub amount_ratio : Ratio
  pub hour : ℕ
  pub is_night : ℕ
  pub tx_count : ℕ
  pub recent_tx_10min : ℕ
  pub day_of_week : ℕ
  pub has_event_7days : ℕ
  pub days_to_event : ℕ

-- `_ml_model`: none if the file was not loaded. The classifier is not part of the repository's
-- code: a function to the probability of fraud, none where the call raises.
abbrev pub MlModel : Type 0
MlModel = Option (Features → Option Ratio)
