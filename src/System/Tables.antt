-- ===== src/System/Tables.antt =====
-- Which tables the calls write.
use moaje_work.Spending.DailyLimit.{calculate_daily_limit}
use moaje_work.Budget.{BudgetRequest, get_daily_budget, answer_budget}
use moaje_work.Schedules.{
  AcademicScheduleCreate, create_academic_schedule, publish_schedule_updated, drop_buffer,
  add_schedule, get_event_buffer,
}
use moaje_work.Alerts.{handle_fds_alert}
use moaje_work.Prelude.{
  ℕ, ◌≡◌, refl, ap, ◌∙◌, inl, inr, Bool, find, arith, Bool-cases, Option-cases, ℤ,
}
use moaje_work.Fds.{DetectRequest, MlModel}
use moaje_work.Fds.Score.{Assessment}
use moaje_work.Fds.Detector.{
  detect, store_verdict, after_insert, publish_fds_alert, find_verdict, assess_request,
  increment_tx_count,
}
use moaje_work.Fds.Verdicts.{clashes, find_clash, store_clash, store_fresh, inserted}
use moaje_work.Spending.ProfileStore.{
  is_profile, get_or_create_profile, profile_from_db, cached_profile,
}
use moaje_work.Spending.Welford.{write_profile, update_found, update_profile_from_transaction}
use moaje_work.Database.{World, Database, Environment, FdsAlertEvent}

-- Only the profiles differ.
abbrev pub OnlyProfiles : Database → Database → Type 0
OnlyProfiles before after = after ≡ record before { profiles = after.profiles }

-- Only the profiles and the verdicts differ.
abbrev pub OnlyVerdicts : Database → Database → Type 0
OnlyVerdicts before after =
    after ≡ record before { profiles = after.profiles; inference_logs = after.inference_logs }

module _ (env : Environment) (user : ℕ) where
  from_db-OnlyProfiles : (w : World) → OnlyProfiles w.db (profile_from_db env user w).1.db
  unfolding profile_from_db
  from_db-OnlyProfiles w = elim (Bool-cases env.database_available) [
    | inl up ↦ rw (up, profile_from_db) refl
    | inr down ↦ rw (down, profile_from_db) refl
  ]

  pub create-OnlyProfiles : (w : World) → OnlyProfiles w.db (get_or_create_profile env user w).1.db
  unfolding get_or_create_profile
  create-OnlyProfiles w = elim (Option-cases (cached_profile user w)) [
    | inl missed ↦ rw (missed, get_or_create_profile) (from_db-OnlyProfiles w)
    | inr (p, hit) ↦ rw (hit, get_or_create_profile) refl
  ]

module _ (root : ℤ → ℕ → ℕ) (user amount : ℕ) (c : Bool) where
  found-OnlyProfiles : (w : World) → OnlyProfiles w.db (update_found root user amount c w).db
  unfolding update_found write_profile
  found-OnlyProfiles w = elim (Option-cases (find (is_profile user) w.db.profiles)) [
    | inl gone ↦ rw (gone, update_found) refl
    | inr (p, there) ↦ rw (there, update_found) refl
  ]

  -- Two calls after each other.
  chain : (a b d : Database) → OnlyProfiles a b → OnlyProfiles b d → OnlyProfiles a d
  chain a b d h k = k ∙ ap (λ (x : Database). record x { profiles = d.profiles }) h

  pub update-OnlyProfiles :
      (env : Environment) (w : World)
      → OnlyProfiles w.db (update_profile_from_transaction root env user amount c w).db
  unfolding update_profile_from_transaction write_profile
  update-OnlyProfiles env w = elim (Bool-cases env.database_available) [
    | inl up ↦ elim (Option-cases (find (is_profile user) w.db.profiles)) [
      | inl gone ↦
          let w' = (get_or_create_profile env user w).1 in
          rw (up, gone, update_profile_from_transaction)
            (chain w.db w'.db (update_found root user amount c w').db
              (create-OnlyProfiles env user w) (found-OnlyProfiles w'))
      | inr (p, there) ↦ rw (up, there, update_profile_from_transaction) refl
    ]
    | inr down ↦ rw (down, update_profile_from_transaction) refl
  ]

module _ (env : Environment) (req : DetectRequest) where
  insert-db :
      (a : Assessment) (w : World)
      → (after_insert env req a w).1.db
        ≡ record w.db { profiles = increment_tx_count req.user_id w.db.profiles }
  unfolding after_insert publish_fds_alert
  insert-db a w = ground arith

  insert-OnlyVerdicts :
      (a : Assessment) (w : World) → OnlyVerdicts w.db (after_insert env req a w).1.db
  insert-OnlyVerdicts a w = rw (insert-db a w) refl

  store-OnlyVerdicts :
      (a : Assessment) (w : World) → OnlyVerdicts w.db (store_verdict env req a w).1.db
  store-OnlyVerdicts a w = elim (Bool-cases (clashes env req a w)) [
    | inl clash ↦
        let (l, e) = find_clash env req a w clash in rw (store_clash env req a w l clash e) refl
    | inr fresh ↦
        rw (store_fresh env req a w fresh)
          (let k = insert-OnlyVerdicts a (inserted env req a w) in k)
  ]

  pub detect-OnlyVerdicts :
      (model : MlModel) (w : World) → OnlyVerdicts w.db (detect model env req w).1.db
  unfolding detect
  detect-OnlyVerdicts model w =
      elim (Option-cases (find_verdict req.user_id req.transaction_id w.db.inference_logs)) [
        | inl new ↦ rw (new, detect) (store-OnlyVerdicts (assess_request model env req w.db) w)
        | inr (l, old) ↦ rw (old, detect) refl
      ]

-- Only the alerts differ.
abbrev pub OnlyAlerts : Database → Database → Type 0
OnlyAlerts before after = after ≡ record before { alerts = after.alerts }

pub alert-OnlyAlerts :
    (env : Environment) (event : FdsAlertEvent) (w : World)
    → OnlyAlerts w.db (handle_fds_alert env event w).db
unfolding handle_fds_alert
alert-OnlyAlerts env event w = ground arith

-- Only the schedules differ.
abbrev pub OnlySchedules : Database → Database → Type 0
OnlySchedules before after = after ≡ record before { schedules = after.schedules }

pub create-OnlySchedules :
    (env : Environment) (body : AcademicScheduleCreate) (w : World)
    → OnlySchedules w.db (create_academic_schedule env body w).db
unfolding create_academic_schedule publish_schedule_updated drop_buffer add_schedule
create-OnlySchedules env body w = ground arith

-- Only the logs of computed limits differ.
abbrev pub OnlyLimits : Database → Database → Type 0
OnlyLimits before after = after ≡ record before { analysis_logs = after.analysis_logs }

pub budget-OnlyLimits :
    (env : Environment) (request : BudgetRequest) (w : World)
    → OnlyLimits w.db (get_daily_budget env request w).1.db
unfolding get_daily_budget answer_budget calculate_daily_limit get_event_buffer
budget-OnlyLimits env request w = ground arith
