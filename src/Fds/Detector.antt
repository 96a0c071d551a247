-- ===== src/Fds/Detector.antt =====
-- The methods of `FdsDetector` (app/services/fds/detector.py) on the tables. A session's writes
-- are the resulting database; its caller commits or rolls back. The database answers the session:
-- `handle_transaction_succeeded` and `run_request` say what is left of a call where it does not.
use moaje_work.Prelude.{
  ℕ, ◌+◌, ◌-◌, ◌*◌, Bool, true, false, ◌&&◌, Option, none, some, List, [], ◌∷◌, ◌++◌, String,
  str_eq, leb, ◌==◌, if◌then◌else◌, find, any, count, update_where,
}
use moaje_work.Spending.{Profile}
use moaje_work.Database.{
  Database, World, Environment, Result, ok, err, integrity_error, kafka_error,
  multiple_results_found,
}
use moaje_work.Fds.{
  DetectRequest, DetectResponse, InferenceLog, BlacklistEntry, BlacklistReason, MlModel,
}
use moaje_work.Fds.Score.{Assessment, assess, generate_message, rapid_repeat_seconds}

abbrev pub same_transaction : ℕ → String → InferenceLog → Bool
same_transaction user tx l = l.user_id == user && str_eq l.transaction_id tx

unfoldable pub find_verdict : ℕ → String → List InferenceLog → Option InferenceLog
find_verdict user tx logs = find (same_transaction user tx) logs

unfoldable pub verdict_response : InferenceLog → DetectResponse
verdict_response log = record {
  user_id = log.user_id;
  transaction_id = log.transaction_id;
  risk_score = log.risk_score;
  risk_level = log.risk_level;
  reason_code = log.reason_code;
  is_alerted = log.is_alerted;
  message = generate_message log.risk_level log.reason_code;
}

unfoldable pub get_profile : ℕ → List Profile → Option Profile
get_profile user profiles = find (λ p. p.user_id == user) profiles

-- `created_at >= now - 10 minutes`
unfoldable pub get_recent_tx_count : ℕ → ℕ → List InferenceLog → ℕ
get_recent_tx_count now user logs =
    count (λ l. l.user_id == user && leb (now - rapid_repeat_seconds) l.created_at) logs

unfoldable pub increment_tx_count : ℕ → List Profile → List Profile
increment_tx_count user profiles =
    update_where (λ p. p.user_id == user) (λ p. record p { tx_count = p.tx_count + 1 }) profiles

-- The unique index on (user_id, transaction_id): none is IntegrityError.
unfoldable pub insert_log : InferenceLog → List InferenceLog → Option (List InferenceLog)
insert_log log logs =
    if any (same_transaction log.user_id log.transaction_id) logs
    then none
    else some (logs ++ log ∷ [])

-- The defaults of a user without a profile.
abbrev default_avg : ℕ
default_avg = 300000000

abbrev default_std : ℕ
default_std = 150000000

-- The part of `detect` that reads the profile and computes the scores.
unfoldable pub assess_request : MlModel → Environment → DetectRequest → Database → Assessment
unfolding get_profile
assess_request model env req db =
    let recent = get_recent_tx_count env.now req.user_id db.inference_logs in
    elim (get_profile req.user_id db.profiles) [
      | some p ↦
          assess model p.avg_daily_amount p.std_daily_amount p.tx_count recent env.weekday req
      | none ↦ assess model default_avg default_std 0 recent env.weekday req
    ]

unfoldable pub new_log : Environment → DetectRequest → Assessment → InferenceLog
new_log env req a = record {
  user_id = req.user_id;
  transaction_id = req.transaction_id;
  amount = req.amount;
  merchant = req.merchant;
  risk_score = a.score;
  risk_level = a.level;
  reason_code = a.reasons;
  is_alerted = a.alerted;
  occurred_at = req.occurred_at;
  created_at = env.now;
}

unfoldable pub publish_fds_alert :
    Environment → DetectRequest → Assessment → World → Result (Unit {0}) × World
publish_fds_alert env req a w =
    if env.kafka_available
    then (
      ok tt,
      record w {
        published =
            w.published
            ++ record {
              user_id = req.user_id;
              millis = env.now * 1000 + env.millisecond;
              risk_level = a.level;
              reason_code = a.reasons;
              amount = req.amount;
              merchant = req.merchant;
            }
              ∷ [];
      },
    )
    else (err kafka_error, w)

-- After the row is stored: the count, and the message if the score calls for one.
unfoldable pub after_insert :
    Environment → DetectRequest → Assessment → World → Result DetectResponse × World
unfolding publish_fds_alert increment_tx_count
after_insert env req a w =
    let counted : World = record w {
      db = record w.db { profiles = increment_tx_count req.user_id w.db.profiles };
    } in
    let response = verdict_response (new_log env req a) in
    if a.alerted
    then (let (r, w') = publish_fds_alert env req a counted in
        elim r [ ok _ ↦ (ok response, w') | err e ↦ (err e, w') ])
    else (ok response, counted)

-- The savepoint: other transactions may have committed rows since the look-up.
unfoldable pub store_verdict :
    Environment → DetectRequest → Assessment → World → Result DetectResponse × World
store_verdict env req a w =
    let logs = w.db.inference_logs ++ env.concurrent_logs in
    elim (insert_log (new_log env req a) logs) [
      | some logs' ↦
          after_insert env req a (record w { db = record w.db { inference_logs = logs' } })
      | none ↦
          let seen : World = record w { db = record w.db { inference_logs = logs } } in
          elim (find_verdict req.user_id req.transaction_id logs) [
            | some winner ↦ (ok (verdict_response winner), seen)
            | none ↦ (err integrity_error, seen)
          ]
    ]

unfoldable pub detect :
    MlModel → Environment → DetectRequest → World → Result DetectResponse × World
unfolding find_verdict
detect model env req w = elim (find_verdict req.user_id req.transaction_id w.db.inference_logs) [
  | some prev ↦ (ok (verdict_response prev), w)
  | none ↦ store_verdict env req (assess_request model env req w.db) w
]

abbrev pub is_active_entry : ℕ → BlacklistEntry → Bool
is_active_entry user e = e.user_id == user && e.is_active

-- `scalar_one_or_none` raises if there is more than one row.
unfoldable pub get_blacklist_status : ℕ → List BlacklistEntry → Result Bool
get_blacklist_status user entries =
    let n = count (is_active_entry user) entries in
    if n == 0 then ok false else if n == 1 then ok true else err multiple_results_found

unfoldable pub register_blacklist :
    Environment → ℕ → BlacklistReason → String → List BlacklistEntry → List BlacklistEntry
register_blacklist env user reason description entries =
    entries
    ++ record {
      user_id = user;
      reason = reason;
      description = description;
      is_active = true;
      registered_at = env.now;
      released_at = none;
    }
      ∷ []

-- False, and nothing changed, if no entry of the user is active.
unfoldable pub release_blacklist :
    Environment → ℕ → List BlacklistEntry → Bool × List BlacklistEntry
release_blacklist env user entries =
    if any (is_active_entry user) entries
    then (
      true,
      update_where (is_active_entry user)
          (λ e. record e { is_active = false; released_at = some env.now }) entries,
    )
    else (false, entries)
