-- ===== src/Alerts/Reading.antt =====
-- Alerts are stored once, and counted and confirmed as their user sees them.
use moaje_work.Prelude.{
  ℕ, zero, suc, ◌≤◌, ◌≡◌, ◌≢◌, refl, ap, ◌∙◌, inl, inr, Bool, true, false, none, List, [], ◌∷◌,
  ◌++◌, ◌==◌, if◌then◌else◌, any, any-append, find, length, update_where, take_rows, min, arith,
  Bool-cases, Option-cases,
}
use moaje_work.Fds.{AlertLog}
use moaje_work.Database.{World, Environment, FdsAlertEvent}
use moaje_work.Alerts.{
  same_alert, alert_of, handle_fds_alert, newest_first, insert_by_newest, alerts_of, unread_of,
  get_fds_alerts, is_own_alert, confirmed, confirm_fds_alert,
}

-- No two alerts of a user come from the same message.
abbrev pub IsOnce : List AlertLog → Type 0
IsOnce [] = Unit
IsOnce (a ∷ rest) = (any (same_alert a.user_id a.millis) rest ≡ false) × IsOnce rest

append-IsOnce :
    (a : AlertLog) (rest : List AlertLog)
    → any (same_alert a.user_id a.millis) rest ≡ false
    → IsOnce rest
    → IsOnce (rest ++ a ∷ [])
append-IsOnce a [] h u = (refl, tt)
append-IsOnce a (b ∷ rest) h (u, v) =
    let split = any-append (same_alert b.user_id b.millis) rest (a ∷ []) in
    (ground (arith, split, u, h), append-IsOnce a rest (ground (arith, h)) v)

module _ (env : Environment) (event : FdsAlertEvent) (w : World) where
  abbrev known : Bool
  known = any (same_alert event.user_id event.millis) w.db.alerts

  abbrev added : World
  added = record w { db = record w.db { alerts = w.db.alerts ++ alert_of env event ∷ [] } }

  handled :
      handle_fds_alert env event w
      ≡ (if env.database_available then (if known then w else added) else w)
  unfolding handle_fds_alert
  handled = refl

  handled_known : known ≡ true → handle_fds_alert env event w ≡ w
  handled_known h =
      rw (handled, h)
        (elim (Bool-cases env.database_available) [ inl up ↦ rw up refl | inr down ↦ rw down refl ])

  added-known : any (same_alert event.user_id event.millis) added.db.alerts ≡ true
  unfolding alert_of
  added-known =
      any-append (same_alert event.user_id event.millis) w.db.alerts (alert_of env event ∷ [])
      ∙ ground arith

  -- While the database answers, a message leaves its alert.
  handled-known :
      env.database_available ≡ true
      → any (same_alert event.user_id event.millis) (handle_fds_alert env event w).db.alerts ≡ true
  unfolding alert_of
  handled-known db = elim (Bool-cases known) [
    | inl old ↦ rw (handled, db, old) old
    | inr new ↦ rw (handled, db, new) added-known
  ]

  -- The alerts of a user stay one for each message, whichever way the handler ends.
  pub alert-IsOnce : IsOnce w.db.alerts → IsOnce (handle_fds_alert env event w).db.alerts
  unfolding alert_of
  alert-IsOnce u = elim (Bool-cases env.database_available) [
    | inl up ↦ elim (Bool-cases known) [
      | inl old ↦ rw (handled, up, old) u
      | inr new ↦ rw (handled, up, new) (append-IsOnce (alert_of env event) w.db.alerts new u)
    ]
    | inr down ↦ rw (handled, down) u
  ]

-- A message that was handled while the database answered changes nothing when it is delivered
-- again, at any later time.
alert_redelivered :
    (env env' : Environment) (event : FdsAlertEvent) (w : World)
    → env.database_available ≡ true
    → handle_fds_alert env' event (handle_fds_alert env event w) ≡ handle_fds_alert env event w
alert_redelivered env env' event w db =
    handled_known env' event (handle_fds_alert env event w) (handled-known env event w db)

length-insert :
    (k : AlertLog → ℕ) (a : AlertLog) (xs : List AlertLog)
    → length (insert_by_newest k a xs) ≡ suc (length xs)
length-insert k a [] = refl
length-insert k a (x ∷ xs) = ground (arith, length-insert k a xs)

length-newest : (k : AlertLog → ℕ) (xs : List AlertLog) → length (newest_first k xs) ≡ length xs
length-newest k [] = refl
length-newest k (x ∷ xs) = length-insert k x (newest_first k xs) ∙ ap suc (length-newest k xs)

length-take : (n : ℕ) (xs : List AlertLog) → length (take_rows n xs) ≡ min n (length xs)
length-take n [] = omega arith
length-take zero (x ∷ xs) = omega arith
length-take (suc n) (x ∷ xs) = omega (arith, length-take n xs)

unread-le :
    (user : ℕ) (alerts : List AlertLog)
    → length (unread_of user alerts) ≤ length (alerts_of user alerts)
unread-le user [] = omega arith
unread-le user (a ∷ alerts) = ground (arith, unread-le user alerts)

-- The two counts of an alert list are those of all the user's alerts, whatever the limit: as many
-- alerts are listed as the limit and the count allow, and no more are unread than there are.
pub alert_counts :
    (user limit : ℕ) (unread : Bool) (alerts : List AlertLog)
    → let r = get_fds_alerts user limit unread alerts in
      (length r.alerts ≡ min limit (if unread then r.unread else r.total)) × (r.unread ≤ r.total)
unfolding get_fds_alerts
alert_counts user limit true alerts = (
  length-take limit _ ∙ ap (min limit) (length-newest _ (unread_of user alerts)),
  unread-le user alerts,
)
alert_counts user limit false alerts = (
  length-take limit _ ∙ ap (min limit) (length-newest _ (alerts_of user alerts)),
  unread-le user alerts,
)

module _ (now user alert_id : ℕ) where
  abbrev confirm_in : List AlertLog → List AlertLog
  confirm_in alerts = update_where (is_own_alert user alert_id) (confirmed now) alerts

  confirm_in-read :
      (alerts : List AlertLog)
      → any (λ (a : AlertLog). a.id == alert_id) (unread_of user (confirm_in alerts)) ≡ false
  confirm_in-read [] = refl
  confirm_in-read (a ∷ alerts) = ground (arith, confirm_in-read alerts)

  confirm_in-length :
      (alerts : List AlertLog)
      → length (alerts_of user (confirm_in alerts)) ≡ length (alerts_of user alerts)
  confirm_in-length [] = refl
  confirm_in-length (a ∷ alerts) = ground (arith, confirm_in-length alerts)

  confirm_in-other :
      (other : ℕ) (alerts : List AlertLog)
      → other ≢ user
      → alerts_of other (confirm_in alerts) ≡ alerts_of other alerts
  confirm_in-other other [] h = refl
  confirm_in-other other (a ∷ alerts) h = ground (arith, h, confirm_in-other other alerts h)

  missing-read :
      (alerts : List AlertLog)
      → find (is_own_alert user alert_id) alerts ≡ none
      → any (λ (a : AlertLog). a.id == alert_id) (unread_of user alerts) ≡ false
  missing-read [] h = refl
  missing-read (a ∷ alerts) h = ground (arith, h, missing-read alerts)

-- After a confirmation, found or not, no unread alert of the user has the confirmed id, the user
-- has as many alerts as before, and every other user's alerts are as before.
pub confirm_reads :
    (env : Environment) (user alert_id other : ℕ) (alerts : List AlertLog)
    → other ≢ user
    → let alerts' = (confirm_fds_alert env user alert_id alerts).1 in
      (any (λ (a : AlertLog). a.id == alert_id) (unread_of user alerts') ≡ false)
      × (length (alerts_of user alerts') ≡ length (alerts_of user alerts))
      × (alerts_of other alerts' ≡ alerts_of other alerts)
unfolding confirm_fds_alert
confirm_reads env user alert_id other alerts h =
    elim (Option-cases (find (is_own_alert user alert_id) alerts)) [
      | inl gone ↦
          rw (gone, confirm_fds_alert) (missing-read env.now user alert_id alerts gone, refl, refl)
      | inr (a, found) ↦
          rw (found, confirm_fds_alert)
            (
              confirm_in-read env.now user alert_id alerts,
              confirm_in-length env.now user alert_id alerts,
              confirm_in-other env.now user alert_id other alerts h,
            )
    ]
