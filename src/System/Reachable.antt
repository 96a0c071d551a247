-- ===== src/System/Reachable.antt =====
-- What holds of every world that the service can reach from a sound one.
use moaje_work.Prelude.{
  ℕ, ◌≡◌, refl, ap, ◌∙◌, inl, inr, List, [], ◌∷◌, any, find, update_where, arith, Bool-cases,
  Option-cases, ℤ, either_branch,
}
use moaje_work.Fds.{MlModel, AlertLog}
use moaje_work.Alerts.{confirm_fds_alert, same_alert, is_own_alert, confirmed as mark_confirmed}
use moaje_work.Alerts.Reading.{IsOnce}
use moaje_work.Budget.{BudgetRequest, get_daily_budget}
use moaje_work.Database.{World, Database, Environment}
use moaje_work.System.{
  Step, consumed, requested, budgeted, confirmed, profile_read, buffer_read, redis_changed, Reach,
  here, further,
}
use moaje_work.System.Tables.{budget-OnlyLimits}
use moaje_work.System.Invariant.{IsSound, consume-IsSound, request-IsSound, shown-IsSound}
use moaje_work.Schedules.{read_event_buffer, get_event_buffer}

any-confirm :
    (now user alert_id u millis : ℕ) (alerts : List AlertLog)
    → any
        (same_alert u millis)
        (update_where (is_own_alert user alert_id) (mark_confirmed now) alerts)
      ≡ any (same_alert u millis) alerts
any-confirm now user alert_id u millis [] = refl
any-confirm now user alert_id u millis (a ∷ alerts) =
    ground (arith, any-confirm now user alert_id u millis alerts)

update-IsOnce :
    (now user alert_id : ℕ) (alerts : List AlertLog)
    → IsOnce alerts
    → IsOnce (update_where (is_own_alert user alert_id) (mark_confirmed now) alerts)
update-IsOnce now user alert_id [] u = tt
update-IsOnce now user alert_id (a ∷ alerts) (alone, rest) =
    let same = any-confirm now user alert_id a.user_id a.millis alerts ∙ alone in
    elim (Bool-cases (is_own_alert user alert_id a)) [
      | inl own ↦ rw own (same, update-IsOnce now user alert_id alerts rest)
      | inr other ↦ rw other (same, update-IsOnce now user alert_id alerts rest)
    ]

confirm-IsOnce :
    (env : Environment) (user alert_id : ℕ) (alerts : List AlertLog)
    → IsOnce alerts
    → IsOnce (confirm_fds_alert env user alert_id alerts).1
unfolding confirm_fds_alert
confirm-IsOnce env user alert_id alerts u =
    elim (Option-cases (find (is_own_alert user alert_id) alerts)) [
      | inl gone ↦ rw (gone, confirm_fds_alert) u
      | inr (a, found) ↦
          rw (found, confirm_fds_alert) (update-IsOnce env.now user alert_id alerts u)
    ]

budget-IsSound :
    (env : Environment) (request : BudgetRequest) (w : World)
    → IsSound w.db
    → IsSound (get_daily_budget env request w).1.db
budget-IsSound env request w s =
    let only = budget-OnlyLimits env request w in
    record {
      verdicts = rw (ap (λ (d : Database). d.inference_logs) only) s.verdicts;
      profiles = rw (ap (λ (d : Database). d.profiles) only) s.profiles;
      alerts = rw (ap (λ (d : Database). d.alerts) only) s.alerts;
    }

buffer-tables :
    (env : Environment) (user : ℕ) (w : World) → (read_event_buffer env user w).1.db ≡ w.db
unfolding read_event_buffer get_event_buffer
buffer-tables env user w = ground arith

module _ (root : ℤ → ℕ → ℕ) (model : MlModel) where
  step-IsSound : (w v : World) → Step root model w v → IsSound w.db → IsSound v.db
  step-IsSound w v (consumed env message _ quiet) s =
      consume-IsSound env quiet root model message w s
  step-IsSound w v (requested env header request _ quiet) s =
      request-IsSound env quiet model header request w s
  step-IsSound w v (budgeted env request _) s = budget-IsSound env request w s
  step-IsSound w v (confirmed env user alert_id _) s =
      either_branch (λ (v : World). IsSound v.db) env.database_available _ w
        (record {
          verdicts = s.verdicts;
          profiles = s.profiles;
          alerts = confirm-IsOnce env user alert_id w.db.alerts s.alerts;
        })
        s
  step-IsSound w v (profile_read env user _ quiet) s = shown-IsSound env quiet user w s
  step-IsSound w v (buffer_read env user _) s = rw (buffer-tables env user w) s
  step-IsSound w v (redis_changed redis _) s = s

  -- Where each user's transaction has one verdict, each user one profile and each message one
  -- alert, this stays so in every world that the service reaches by the messages of its topics, the
  -- requests of a detection, a schedule and a sync, daily budgets, confirmations of alerts, readings
  -- of profiles and event buffers, and changes of Redis, in any order. Each of them is handled
  -- alone, and the database and Kafka answer it throughout or not at all.
  pub Reach-IsSound : (w v : World) → Reach root model w v → IsSound w.db → IsSound v.db
  Reach-IsSound w v (here _) s = s
  Reach-IsSound w v (further _ u _ run step) s = step-IsSound u v step (Reach-IsSound w u run s)
