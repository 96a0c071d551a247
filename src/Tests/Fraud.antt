-- ===== src/Tests/Fraud.antt =====
-- Concrete runs of the detection, of the transaction handler and of the blacklist.
use moaje_work.Time.{kst_hour, kst_wall}
use moaje_work.Prelude.{
  ℕ, ◌≡◌, ◌↔◌, ◌≤◌, refl, arith, true, false, none, some, [], ◌∷◌, String, ℤ, pos,
}
use moaje_work.Decimal.{round_half_even, quantize4, min_r, ◌+r◌, ◌*r◌, ◌-r◌, ◌/r◌}
use moaje_work.Fds.{
  DetectRequest, DetectResponse, InferenceLog, BlacklistEntry, manual, low, high, normal,
}
use moaje_work.Fds.Score.{
  assess, get_hybrid_weights, is_night, rule_amount, rule_time, rule_repeat, calc_rule_score,
  calc_personal_score, calc_ml_score, calc_risk_level, final_score, generate_message,
}
use moaje_work.Fds.Detector.{
  find_verdict, detect, get_blacklist_status, register_blacklist, assess_request, get_profile,
  get_recent_tx_count, new_log, insert_log, increment_tx_count, publish_fds_alert, after_insert,
  store_verdict, verdict_response,
}
use moaje_work.Fds.Verdicts.{detect_again}
use moaje_work.Fds.Bounds.{assess_without_model, assess_bounds, night_repeat_alerts}
use moaje_work.Fds.Blacklist.{register_status}
use moaje_work.Database.{Database, Redis, World, Environment, ok, err, multiple_results_found}
use moaje_work.Transactions.{
  TransactionEvent, transaction_key, request_of, clear_caches, handle_transaction_succeeded,
  event_hour,
}
use moaje_work.Transactions.Delivery.{redelivered, alert_dropped}

-- A purchase at midday, and one at three in the morning.
abbrev lunch : DetectRequest
lunch = record {
  user_id = 7;
  transaction_id = "t1";
  amount = 120000000;
  merchant = "cafe";
  hour = 12;
  occurred_at = none;
}

abbrev night : DetectRequest
night = record lunch { transaction_id = "t2"; hour = 3 }

abbrev pub empty_db : Database
empty_db = record {
  profiles = [];
  inference_logs = [];
  blacklist = [];
  monthly = [];
  categories = [];
  schedules = [];
  analysis_logs = [];
  alerts = [];
  universities = [];
  calendars = [];
}

abbrev cold_redis : Redis
cold_redis = record {
  available = true;
  daily_limits = [];
  event_buffers = [];
  spending_profiles = [];
}

abbrev pub start : World
start = record { db = empty_db; redis = cold_redis; published = []; schedule_updates = [] }

abbrev pub noon : Environment
noon = record {
  now = 100000;
  weekday = 2;
  millisecond = 0;
  next_id = 1;
  database_available = true;
  kafka_available = true;
  concurrent_logs = [];
  concurrent_profiles = [];
}

abbrev pub no_kafka : Environment
no_kafka = record noon { kafka_available = false }

-- A row of the night's purchase written a moment ago by the same user.
abbrev pub earlier : String → InferenceLog
earlier id = record {
  user_id = 7;
  transaction_id = id;
  amount = 10000;
  merchant = "";
  risk_score = 0;
  risk_level = low;
  reason_code = [];
  is_alerted = false;
  occurred_at = none;
  created_at = 99990;
}

abbrev pub busy : World
busy = record start {
  db = record empty_db { inference_logs = earlier "a" ∷ earlier "b" ∷ earlier "c" ∷ [] };
}

abbrev lunch_response : DetectResponse
lunch_response = record {
  user_id = 7;
  transaction_id = "t1";
  risk_score = 0;
  risk_level = low;
  reason_code = [];
  is_alerted = false;
  message = normal;
}

detect_again_example :
    detect none no_kafka lunch (detect none noon lunch start).1
    ≡ (ok lunch_response, (detect none noon lunch start).1)
unfolding find_verdict get_profile get_recent_tx_count assess_request new_log insert_log
    increment_tx_count publish_fds_alert after_insert store_verdict detect verdict_response
    get_hybrid_weights is_night rule_amount rule_time rule_repeat calc_rule_score
    calc_personal_score calc_ml_score calc_risk_level final_score assess round_half_even quantize4
    min_r ◌+r◌ ◌*r◌ ◌-r◌ ◌/r◌ generate_message
detect_again_example =
    detect_again none none noon no_kafka lunch start (detect none noon lunch start).1 lunch_response
      refl

assess_without_model_example : (assess none 300000000 150000000 31 5 2 night).alerted ≡ false
assess_without_model_example = assess_without_model 300000000 150000000 31 5 2 night (omega arith)

assess_bounds_example :
    ((assess none 300000000 150000000 31 5 2 night).score ≤ 10000)
    × (((assess none 300000000 150000000 31 5 2 night).alerted ≡ true)
        ↔ ((assess none 300000000 150000000 31 5 2 night).level ≡ high))
assess_bounds_example = assess_bounds none 300000000 150000000 31 5 2 night

night_repeat_alerts_example : (assess none 300000000 150000000 0 3 2 night).alerted ≡ true
night_repeat_alerts_example =
    night_repeat_alerts none 300000000 150000000 0 3 2 night (omega arith) (omega arith)
      (omega arith) (omega arith)

abbrev blocked : BlacklistEntry
blocked = record {
  user_id = 7;
  reason = manual;
  description = "";
  is_active = true;
  registered_at = 1;
  released_at = none;
}

register_status_example :
    (get_blacklist_status 7 (blocked ∷ []) ≡ ok false
      → get_blacklist_status 7 (register_blacklist noon 7 manual "" (blocked ∷ [])) ≡ ok true)
    × (get_blacklist_status 7 (blocked ∷ []) ≡ ok true
        → get_blacklist_status 7 (register_blacklist noon 7 manual "" (blocked ∷ []))
          ≡ err multiple_results_found)
register_status_example = register_status noon 7 manual "" (blocked ∷ [])

abbrev pub purchase : TransactionEvent
purchase = record {
  user_id = 7;
  public_transaction_id = "t2";
  transaction_id = "12";
  amount = pos 120000000;
  -- three in the morning of the Korean day
  occurred_at = some 64800;
}

abbrev pub zero_root : ℤ → ℕ → ℕ
zero_root n d = 0

redelivered_example :
    handle_transaction_succeeded zero_root none no_kafka purchase
      (handle_transaction_succeeded zero_root none noon purchase busy)
    ≡ clear_caches 7 (handle_transaction_succeeded zero_root none noon purchase busy)
redelivered_example = redelivered zero_root none none noon no_kafka purchase busy refl refl

alert_dropped_example :
    (find_verdict 7
        (transaction_key purchase)
        (handle_transaction_succeeded zero_root none no_kafka purchase busy).db.inference_logs
      ≡ none)
    × ((handle_transaction_succeeded zero_root none no_kafka purchase busy).db.profiles ≡ [])
    × ((handle_transaction_succeeded zero_root none no_kafka purchase busy).published ≡ [])
unfolding find_verdict get_profile get_recent_tx_count assess_request new_log insert_log
    increment_tx_count publish_fds_alert after_insert store_verdict detect verdict_response
    get_hybrid_weights is_night rule_amount rule_time rule_repeat calc_rule_score
    calc_personal_score calc_ml_score calc_risk_level final_score assess round_half_even quantize4
    min_r ◌+r◌ ◌*r◌ ◌-r◌ ◌/r◌ generate_message request_of transaction_key event_hour kst_hour
    kst_wall
alert_dropped_example = alert_dropped zero_root none no_kafka purchase busy refl refl refl refl
