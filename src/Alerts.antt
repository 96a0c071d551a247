-- ===== src/Alerts.antt =====
-- The alerts that a user sees: `handle_fds_alert` of app/kafka/consumer.py, and the lists and the
-- confirmation of app/api/v1/endpoints/fds.py. The only messages on the topic are those of
-- `publish_fds_alert`.
pub mod Reading
use moaje_work.Prelude.{
  ℕ, ◌+◌, ◌/◌, Bool, true, false, not, ◌&&◌, Option, none, some, List, [], ◌∷◌, ◌++◌, ◌==◌, leb,
  if◌then◌else◌, filter, any, find, length, update_where, take_rows,
}
use moaje_work.Fds.{
  InferenceLog, AlertLog, AlertMessage, Reason, rule_abnormal_amount, rule_abnormal_amount_fallback,
  rule_abnormal_time, rule_rapid_repeat, ml_high_risk, large_amount, night_time, rapid_payments,
  model_suspicion, suspicious,
}
use moaje_work.Database.{World, Environment, FdsAlertEvent, Result, ok, err, not_found}

abbrev names_amount : Reason → Bool
names_amount r = elim r [
  | rule_abnormal_amount _ _ ↦ true
  | rule_abnormal_amount_fallback _ _ ↦ true
  | _ ↦ false
]

abbrev names_time : Reason → Bool
names_time r = elim r [ rule_abnormal_time _ ↦ true | _ ↦ false ]

abbrev names_repeat : Reason → Bool
names_repeat r = elim r [ rule_rapid_repeat _ ↦ true | _ ↦ false ]

abbrev names_model : Reason → Bool
names_model r = elim r [ ml_high_risk _ ↦ true | _ ↦ false ]

unfoldable pub generate_alert_message : FdsAlertEvent → AlertMessage
generate_alert_message event =
    let won = event.amount / 10000 in
    if any names_amount event.reason_code
    then large_amount won event.merchant
    else if any names_time event.reason_code
    then night_time won event.merchant
    else if any names_repeat event.reason_code
    then rapid_payments won event.merchant
    else if any names_model event.reason_code
    then model_suspicion won event.merchant
    else suspicious won event.merchant

abbrev pub same_alert : ℕ → ℕ → AlertLog → Bool
same_alert user millis a = a.user_id == user && a.millis == millis

unfoldable pub alert_of : Environment → FdsAlertEvent → AlertLog
unfolding generate_alert_message
alert_of env event = record {
  id = env.next_id;
  user_id = event.user_id;
  millis = event.millis;
  amount = event.amount;
  merchant = event.merchant;
  risk_level = event.risk_level;
  reason_code = event.reason_code;
  message = generate_alert_message event;
  is_confirmed = false;
  confirmed_at = none;
  created_at = env.now;
}

-- Nothing is written for a message that has an alert, or while the database does not answer.
unfoldable pub handle_fds_alert : Environment → FdsAlertEvent → World → World
unfolding alert_of
handle_fds_alert env event w =
    if env.database_available
    then (if any (same_alert event.user_id event.millis) w.db.alerts
        then w
        else record w { db = record w.db { alerts = w.db.alerts ++ alert_of env event ∷ [] } })
    else w

-- `order_by(created_at.desc())`; rows of the same time keep the order of the table.
module _ {ℓ} {A : Type ℓ} (created_at : A → ℕ) where
  abbrev pub insert_by_newest : A → List A → List A
  insert_by_newest x [] = x ∷ []
  insert_by_newest x (y ∷ ys) =
      let rest = insert_by_newest x ys in
      if leb (created_at y) (created_at x) then x ∷ y ∷ ys else y ∷ rest

  abbrev pub newest_first : List A → List A
  newest_first [] = []
  newest_first (x ∷ xs) = insert_by_newest x (newest_first xs)

abbrev alert_time : AlertLog → ℕ
alert_time a = a.created_at

abbrev pub alerts_of : ℕ → List AlertLog → List AlertLog
alerts_of user alerts = filter (λ a. a.user_id == user) alerts

abbrev pub unread_of : ℕ → List AlertLog → List AlertLog
unread_of user alerts = filter (λ a. a.user_id == user && not a.is_confirmed) alerts

-- The answer of `get_fds_alerts`.
pub record AlertList : Type 0 where
  pub total : ℕ
  pub unread : ℕ
  pub alerts : List AlertLog

unfoldable pub get_fds_alerts : ℕ → ℕ → Bool → List AlertLog → AlertList
get_fds_alerts user limit unread alerts = record {
  total = length (alerts_of user alerts);
  unread = length (unread_of user alerts);
  alerts =
      take_rows limit
        (newest_first alert_time (if unread then unread_of user alerts else alerts_of user alerts));
}

abbrev pub is_own_alert : ℕ → ℕ → AlertLog → Bool
is_own_alert user alert_id a = a.id == alert_id && a.user_id == user

abbrev pub confirmed : ℕ → AlertLog → AlertLog
confirmed now a = record a { is_confirmed = true; confirmed_at = some now }

unfoldable pub confirm_fds_alert :
    Environment → ℕ → ℕ → List AlertLog → Result (Unit {0}) × List AlertLog
confirm_fds_alert env user alert_id alerts = elim (find (is_own_alert user alert_id) alerts) [
  | none ↦ (err not_found, alerts)
  | some _ ↦ (ok tt, update_where (is_own_alert user alert_id) (confirmed env.now) alerts)
]

abbrev log_time : InferenceLog → ℕ
log_time l = l.created_at

unfoldable pub get_fds_logs : ℕ → ℕ → List InferenceLog → List InferenceLog
get_fds_logs user limit logs =
    take_rows limit (newest_first log_time (filter (λ l. l.user_id == user) logs))
