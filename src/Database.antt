-- ===== src/Database.antt =====
-- The state that the handlers share: the tables (app/models/*.py), the Redis cache
-- (app/redis/client.py) and the messages handed to Kafka (app/kafka/producer.py).
pub mod Cache
pub mod Results
use moaje_work.Prelude.{ℕ, Bool, List, String}
use moaje_work.Spending.{
  Profile, ProfilePayload, AcademicSchedule, AnalysisLog, EventType, University, AcademicCalendar,
}
use moaje_work.Cashflow.{MonthlyCashflow, CategoryCashflow}
use moaje_work.Fds.{InferenceLog, BlacklistEntry, Reason, RiskLevel, AlertLog}

pub data Error : Type 0 where
  integrity_error multiple_results_found kafka_error validation_error : Error
  -- the statuses 401, 403, 404 and 503 of an HTTPException
  unauthorized forbidden not_found service_unavailable : Error

pub data Result {ℓ} (A : Type ℓ) : Type ℓ where
  ok : A → Result A
  err : Error → Result A

-- A message of `publish_fds_alert`; its transaction id is "work-fds-{user_id}-{millis}".
pub record FdsAlertEvent : Type 0 where
  pub user_id : ℕ
  pub millis : ℕ
  pub risk_level : RiskLevel
  pub reason_code : List Reason
  pub amount : ℕ
  pub merchant : String

-- The `event_type` of a schedule message.
pub data UpdateKind : Type 0 where
  registered : EventType → UpdateKind
  calendar_sync : UpdateKind

-- A message of `publish_schedule_updated`.
pub record ScheduleUpdatedEvent : Type 0 where
  pub user_id : ℕ
  pub event_type : UpdateKind
  pub event_buffer : ℕ

pub record Database : Type 0 where
  pub profiles : List Profile
  pub inference_logs : List InferenceLog
  pub blacklist : List BlacklistEntry
  pub monthly : List MonthlyCashflow
  pub categories : List CategoryCashflow
  pub schedules : List AcademicSchedule
  pub analysis_logs : List AnalysisLog
  pub alerts : List AlertLog
  pub universities : List University
  pub calendars : List AcademicCalendar

-- Redis, as association lists from user ids. When it does not answer, reads give nothing and
-- writes are lost.
pub record Redis : Type 0 where
  pub available : Bool
  pub daily_limits : List (ℕ × ℕ)
  pub event_buffers : List (ℕ × ℕ)
  pub spending_profiles : List (ℕ × ProfilePayload)

pub record World : Type 0 where
  pub db : Database
  pub redis : Redis
  pub published : List FdsAlertEvent
  pub schedule_updates : List ScheduleUpdatedEvent

-- What surrounds one call: the clock, whether the services answer, and the rows that other
-- transactions commit between the call's look-up and its insertion.
pub record Environment : Type 0 where
  pub now : ℕ
  pub weekday : ℕ
  -- the milliseconds of the clock past `now`
  pub millisecond : ℕ
  -- the next generated row id
  pub next_id : ℕ
  pub database_available : Bool
  -- whether a publication succeeds; the producer's own state is in Clients
  pub kafka_available : Bool
  pub concurrent_logs : List InferenceLog
  pub concurrent_profiles : List Profile
