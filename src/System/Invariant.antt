-- ===== src/System/Invariant.antt =====
-- What holds of every world that the service can reach.
use moaje_work.Transactions.Delivery.{handle_up, handle_down}
use moaje_work.Prelude.{
  ℕ, refl, ap, inl, inr, Bool, true, Option, none, some, List, ◌++◌, Bool-cases, Option-cases, ℤ,
  either_branch, pos_part,
}
use moaje_work.Fds.{MlModel, InferenceLog, DetectRequest}
use moaje_work.Fds.Detector.{detect, find_verdict}
use moaje_work.Fds.Unique.{IsUnique, detect-IsUnique}
use moaje_work.Spending.{Profile}
use moaje_work.Spending.ProfileStore.{is_profile, get_or_create_profile, handle_user_registered}
use moaje_work.Spending.ProfileView.{response_of_payload, response_of_service, get_spending_profile}
use moaje_work.Database.Cache.{get_spending_profile_cache}
use moaje_work.Spending.Registration.{OneEach, get_or_create-OneEach}
use moaje_work.Spending.Welford.{update_profile_from_transaction}
use moaje_work.Transactions.{
  TransactionEvent, transaction_key, request_of, clear_caches, rolled_back, judge, handle_session,
  handle_transaction_succeeded, judge_accepted, is_accepted,
}
use moaje_work.Schedules.{
  create_academic_schedule, sync_calendar, sync_tables, CalendarSyncRequest, AcademicScheduleCreate,
  undo_tables,
}
use moaje_work.Schedules.Sync.{sync_outcome}
use moaje_work.Schedules.Resync.{append_nil}
use moaje_work.Alerts.Reading.{IsOnce, alert-IsOnce}
use moaje_work.Access.{
  BodyRequest, post_detect, post_schedule, post_sync, run_request, handle_request,
  verify_path_user_id, ensure_self, claimed_user, run_session,
}
use moaje_work.Database.{World, Database, Environment}
use moaje_work.Database.Results.{Result-cases}
use moaje_work.System.{
  Message, transaction_succeeded, monthly_cashflow, category_cashflow, user_registered, fds_alert,
  consume, IsQuiet,
}
use moaje_work.System.Profiles.{update-OneEach, detect-OneEach, update_profile-OneEach}
use moaje_work.System.Tables.{
  create-OnlyProfiles, update-OnlyProfiles, detect-OnlyVerdicts, alert-OnlyAlerts,
  create-OnlySchedules,
}

-- One verdict for a user's transaction, one profile for a user, one alert for a message.
pub record IsSound (db : Database) : Type 0 where
  pub verdicts : IsUnique db.inference_logs
  pub profiles : OneEach db.profiles
  pub alerts : IsOnce db.alerts

module _ (env : Environment) (quiet : IsQuiet env) where
  quiet_logs : (logs : List InferenceLog) → IsUnique logs → IsUnique (logs ++ env.concurrent_logs)
  quiet_logs logs u = rw (quiet.0, append_nil logs) u

  quiet_profiles : (ps : List Profile) → OneEach ps → OneEach (ps ++ env.concurrent_profiles)
  quiet_profiles ps u = rw (quiet.1, append_nil ps) u

  detect-IsSound :
      (model : MlModel) (req : DetectRequest) (w : World)
      → IsSound w.db
      → IsSound (detect model env req w).1.db
  detect-IsSound model req w s = record {
    verdicts =
        detect-IsUnique model env req w s.verdicts (quiet_logs w.db.inference_logs s.verdicts);
    profiles = detect-OneEach env req model w s.profiles;
    alerts = rw (ap (λ (d : Database). d.alerts) (detect-OnlyVerdicts env req model w)) s.alerts;
  }

  update-IsSound :
      (root : ℤ → ℕ → ℕ) (user amount : ℕ) (c : Bool) (w : World)
      → IsSound w.db
      → IsSound (update_profile_from_transaction root env user amount c w).db
  update-IsSound root user amount c w s =
      let only = update-OnlyProfiles root user amount c env w in
      record {
        verdicts = rw (ap (λ (d : Database). d.inference_logs) only) s.verdicts;
        profiles =
            update_profile-OneEach root user amount c env w s.profiles
              (quiet_profiles w.db.profiles s.profiles);
        alerts = rw (ap (λ (d : Database). d.alerts) only) s.alerts;
      }

  accepted-IsSound :
      (root : ℤ → ℕ → ℕ) (model : MlModel) (event : TransactionEvent) (w : World)
      → IsSound w.db
      → IsSound (judge_accepted root model env event w).db
  unfolding judge_accepted rolled_back
  accepted-IsSound root model event w s =
      elim (Result-cases (detect model env (request_of event) w).0) [
        | inl (r, e) ↦
            rw (e, judge_accepted)
              (update-IsSound root event.user_id (pos_part event.amount) true
                (detect model env (request_of event) w).1
                (detect-IsSound model (request_of event) w s))
        | inr (e, failed) ↦
            rw (failed, judge_accepted)
              (record {
                verdicts = quiet_logs w.db.inference_logs s.verdicts;
                profiles = s.profiles;
                alerts = s.alerts;
              })
      ]

  judge-IsSound :
      (root : ℤ → ℕ → ℕ) (model : MlModel) (event : TransactionEvent) (w : World)
      → IsSound w.db
      → IsSound (judge root model env event w).db
  unfolding judge
  judge-IsSound root model event w s =
      either_branch (λ (v : World). IsSound v.db) (is_accepted event) _ w
        (accepted-IsSound root model event w s) s

  session-IsSound :
      (root : ℤ → ℕ → ℕ) (model : MlModel) (event : TransactionEvent) (w : World)
      → IsSound w.db
      → IsSound (handle_session root model env event w).db
  unfolding handle_session
  session-IsSound root model event w s =
      elim (Option-cases (find_verdict event.user_id (transaction_key event) w.db.inference_logs)) [
        | inl new ↦ rw (new, handle_session) (judge-IsSound root model event w s)
        | inr (l, dup) ↦ rw (dup, handle_session) s
      ]

  transaction-IsSound :
      (root : ℤ → ℕ → ℕ) (model : MlModel) (event : TransactionEvent) (w : World)
      → IsSound w.db
      → IsSound (handle_transaction_succeeded root model env event w).db
  unfolding clear_caches
  transaction-IsSound root model event w s = elim (Bool-cases env.database_available) [
    | inl up ↦
        rw (handle_up root model env event w up)
          (session-IsSound root model event (clear_caches event.user_id w) s)
    | inr down ↦ rw (handle_down root model env event w down) s
  ]

  created-IsSound :
      (user : ℕ) (w : World) → IsSound w.db → IsSound (get_or_create_profile env user w).1.db
  created-IsSound user w s =
      let only = create-OnlyProfiles env user w in
      record {
        verdicts = rw (ap (λ (d : Database). d.inference_logs) only) s.verdicts;
        profiles =
            get_or_create-OneEach env user w s.profiles (quiet_profiles w.db.profiles s.profiles);
        alerts = rw (ap (λ (d : Database). d.alerts) only) s.alerts;
      }

  pub shown-IsSound :
      (user : ℕ) (w : World) → IsSound w.db → IsSound (get_spending_profile env user w).1.db
  unfolding get_spending_profile response_of_service
  shown-IsSound user w s = elim (Option-cases (get_spending_profile_cache user w.redis)) [
    | inl absent ↦ rw (absent, get_spending_profile) (created-IsSound user w s)
    | inr (cached, there) ↦ elim (Option-cases (response_of_payload cached)) [
      | inl partial ↦ rw (there, get_spending_profile, partial) (created-IsSound user w s)
      | inr (r, whole) ↦ rw (there, get_spending_profile, whole) s
    ]
  ]

  registered-IsSound :
      (user : Option ℕ) (w : World) → IsSound w.db → IsSound (handle_user_registered env user w).db
  unfolding handle_user_registered
  registered-IsSound none w s = s
  registered-IsSound (some user) w s = created-IsSound user w s

  pub consume-IsSound :
      (root : ℤ → ℕ → ℕ) (model : MlModel) (message : Message) (w : World)
      → IsSound w.db
      → IsSound (consume root model env message w).db
  unfolding consume
  consume-IsSound root model (transaction_succeeded event) w s =
      transaction-IsSound root model event w s
  consume-IsSound root model (monthly_cashflow event) w s = record {
    verdicts = s.verdicts;
    profiles = s.profiles;
    alerts = s.alerts;
  }
  consume-IsSound root model (category_cashflow event) w s = record {
    verdicts = s.verdicts;
    profiles = s.profiles;
    alerts = s.alerts;
  }
  consume-IsSound root model (user_registered user) w s = registered-IsSound user w s
  consume-IsSound root model (fds_alert event) w s =
      let only = alert-OnlyAlerts env event w in
      record {
        verdicts = rw (ap (λ (d : Database). d.inference_logs) only) s.verdicts;
        profiles = rw (ap (λ (d : Database). d.profiles) only) s.profiles;
        alerts = alert-IsOnce env event w s.alerts;
      }

  schedule-IsSound :
      (body : AcademicScheduleCreate) (w : World)
      → IsSound w.db
      → IsSound (create_academic_schedule env body w).db
  schedule-IsSound body w s =
      let only = create-OnlySchedules env body w in
      record {
        verdicts = rw (ap (λ (d : Database). d.inference_logs) only) s.verdicts;
        profiles = rw (ap (λ (d : Database). d.profiles) only) s.profiles;
        alerts = rw (ap (λ (d : Database). d.alerts) only) s.alerts;
      }

  sync-IsSound :
      (req : CalendarSyncRequest) (w : World)
      → IsSound w.db
      → IsSound (sync_calendar env req w).1.db
  unfolding sync_tables
  sync-IsSound req w s = elim (sync_outcome env req w) [
    | inl same ↦ rw same s
    | inr new ↦ rw new.tables (record {
      verdicts = s.verdicts;
      profiles =
          update-OneEach (is_profile req.user_id)
            (λ p. record p { university_id = some req.university_id }) (λ p e. refl) w.db.profiles
            s.profiles;
      alerts = s.alerts;
    })
  ]

  request_session-IsSound :
      (model : MlModel) (user : ℕ) (request : BodyRequest) (w : World)
      → IsSound w.db
      → IsSound (run_session model env user request w).db
  unfolding run_session undo_tables
  request_session-IsSound model user (post_detect req) w s =
      let own = record req { user_id = user } in
      elim (Result-cases (detect model env own w).0) [
        | inl (r, e) ↦ rw (e, run_session) (detect-IsSound model own w s)
        | inr (e, failed) ↦ rw (failed, run_session) s
      ]
  request_session-IsSound model user (post_schedule body) w s =
      schedule-IsSound (record body { user_id = user }) w s
  request_session-IsSound model user (post_sync req) w s =
      sync-IsSound (record req { user_id = user }) w s

  run-IsSound :
      (model : MlModel) (user : ℕ) (request : BodyRequest) (w : World)
      → IsSound w.db
      → IsSound (run_request model env user request w).db
  unfolding run_request
  run-IsSound model user request w s =
      either_branch (λ (v : World). IsSound v.db) env.database_available _ w
        (request_session-IsSound model user request w s) s

  pub request-IsSound :
      (model : MlModel) (header : Option (List ℕ)) (request : BodyRequest) (w : World)
      → IsSound w.db
      → IsSound (handle_request model env header request w).1.db
  unfolding handle_request
  request-IsSound model header request w s = elim (Result-cases (verify_path_user_id header none)) [
    | inl (user, named) ↦ elim (Result-cases (ensure_self user (claimed_user request))) [
      | inl (same, own) ↦ rw (named, handle_request, own) (run-IsSound model same request w s)
      | inr (e, other) ↦ rw (named, handle_request, other) s
    ]
    | inr (e, failed) ↦ rw (failed, handle_request) s
  ]
