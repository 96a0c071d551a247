-- ===== src/Access/Owner.antt =====
-- A request changes only the data of the user whom its header names.
use moaje_work.Database.Results.{Result-cases}
use moaje_work.Schedules.Fresh.{created}
use moaje_work.Fds.Score.{Assessment}
use moaje_work.Fds.Verdicts.{clashes, find_clash, store_clash, store_fresh, inserted}
use moaje_work.Prelude.{
  ℕ, ◌+◌, ◌≡◌, refl, ap, sym, ◌∙◌, ◌⊎◌, inl, inr, not, Option, some, List, [], ◌∷◌, ◌++◌, ◌==◌,
  filter, update_where, arith, Bool-cases, Option-cases, either_branch,
}
use moaje_work.Spending.{Profile, AcademicSchedule}
use moaje_work.Fds.{DetectRequest, MlModel}
use moaje_work.Fds.Detector.{
  detect, store_verdict, after_insert, publish_fds_alert, increment_tx_count, find_verdict,
  assess_request,
}
use moaje_work.Database.{World, Database, Environment, Error, ok, err, forbidden}
use moaje_work.Schedules.{
  AcademicScheduleCreate, create_academic_schedule, new_schedule, CalendarSyncRequest,
  sync_calendar, sync_tables, undo_tables, publish_schedule_updated, drop_buffer, add_schedule,
}
use moaje_work.Schedules.Sync.{sync_outcome, sync_keeps, is_kept}
use moaje_work.Access.{
  BodyRequest, post_detect, post_schedule, post_sync, claimed_user, run_request, handle_request,
  get_authenticated_user_id, verify_path_user_id, ensure_self, run_session,
}

abbrev pub foreign_schedules : ℕ → Database → List AcademicSchedule
foreign_schedules user db = filter (λ s. not (s.user_id == user)) db.schedules

abbrev pub foreign_profiles : ℕ → Database → List Profile
foreign_profiles user db = filter (λ p. not (p.user_id == user)) db.profiles

-- What one user's request leaves as it was.
abbrev pub IsForeignKept : ℕ → Database → Database → Type 0
IsForeignKept user before after =
    (foreign_schedules user after ≡ foreign_schedules user before)
    × (foreign_profiles user after ≡ foreign_profiles user before)

module _ (user : ℕ) (write : Profile → Profile)
    (keeps : (p : Profile) → (write p).user_id ≡ p.user_id) where
  update-foreign :
      (ps : List Profile)
      → filter (λ p. not (p.user_id == user)) (update_where (λ p. p.user_id == user) write ps)
        ≡ filter (λ p. not (p.user_id == user)) ps
  update-foreign [] = refl
  update-foreign (p ∷ ps) = ground (arith, keeps p, update-foreign ps)

foreign_of_kept :
    (user : ℕ) (xs : List AcademicSchedule)
    → filter (λ s. not (s.user_id == user)) (filter (is_kept user) xs)
      ≡ filter (λ s. not (s.user_id == user)) xs
foreign_of_kept user [] = refl
foreign_of_kept user (x ∷ xs) = ground (arith, foreign_of_kept user xs)

append-foreign :
    (user : ℕ) (xs : List AcademicSchedule) (s : AcademicSchedule)
    → s.user_id ≡ user
    → filter (λ s. not (s.user_id == user)) (xs ++ s ∷ [])
      ≡ filter (λ s. not (s.user_id == user)) xs
append-foreign user [] s h = ground (arith, h)
append-foreign user (x ∷ xs) s h = ground (arith, append-foreign user xs s h)

module _ (env : Environment) where
  sync-IsForeignKept :
      (req : CalendarSyncRequest) (w : World)
      → IsForeignKept req.user_id w.db (sync_calendar env req w).1.db
  unfolding sync_tables
  sync-IsForeignKept req w = (
    sym (foreign_of_kept req.user_id _)
        ∙ ap (filter (λ s. not (s.user_id == req.user_id))) (sync_keeps env req w)
        ∙ foreign_of_kept req.user_id w.db.schedules,
    elim (sync_outcome env req w) [
      | inl same ↦ ap (foreign_profiles req.user_id) same
      | inr new ↦
          ap (foreign_profiles req.user_id) new.tables
          ∙ update-foreign req.user_id (λ p. record p { university_id = some req.university_id })
              (λ p. refl) w.db.profiles
    ],
  )

  created_profiles :
      (body : AcademicScheduleCreate) (w : World)
      → (create_academic_schedule env body w).db.profiles ≡ w.db.profiles
  unfolding create_academic_schedule publish_schedule_updated drop_buffer add_schedule
  created_profiles body w = ground arith

  create-IsForeignKept :
      (body : AcademicScheduleCreate) (w : World)
      → IsForeignKept body.user_id w.db (create_academic_schedule env body w).db
  create-IsForeignKept body w = (
    ap (filter (λ s. not (s.user_id == body.user_id))) (created env body w).1
        ∙ append-foreign body.user_id w.db.schedules (new_schedule env body) refl,
    ap (filter (λ p. not (p.user_id == body.user_id))) (created_profiles body w),
  )

  after_insert-IsForeignKept :
      (req : DetectRequest) (a : Assessment) (w : World)
      → IsForeignKept req.user_id w.db (after_insert env req a w).1.db
  unfolding after_insert publish_fds_alert increment_tx_count
  after_insert-IsForeignKept req a w =
      let counted =
        update-foreign req.user_id (λ p. record p { tx_count = p.tx_count + 1 }) (λ p. refl)
          w.db.profiles in
      (ground arith, ground (arith, counted))

  store-IsForeignKept :
      (req : DetectRequest) (a : Assessment) (w : World)
      → IsForeignKept req.user_id w.db (store_verdict env req a w).1.db
  store-IsForeignKept req a w = elim (Bool-cases (clashes env req a w)) [
    | inl clash ↦
        let (l, e) = find_clash env req a w clash in
        rw (store_clash env req a w l clash e) (refl, refl)
    | inr fresh ↦
        rw (store_fresh env req a w fresh) (after_insert-IsForeignKept req a (inserted env req a w))
  ]

  detect-IsForeignKept :
      (model : MlModel) (req : DetectRequest) (w : World)
      → IsForeignKept req.user_id w.db (detect model env req w).1.db
  unfolding detect
  detect-IsForeignKept model req w =
      elim (Option-cases (find_verdict req.user_id req.transaction_id w.db.inference_logs)) [
        | inl new ↦ rw (new, detect) (store-IsForeignKept req (assess_request model env req w.db) w)
        | inr (l, old) ↦ rw (old, detect) (refl, refl)
      ]

  session-IsForeignKept :
      (model : MlModel) (user : ℕ) (request : BodyRequest) (w : World)
      → IsForeignKept user w.db (run_session model env user request w).db
  unfolding run_session undo_tables
  session-IsForeignKept model user (post_detect req) w =
      let own = record req { user_id = user } in
      elim (Result-cases (detect model env own w).0) [
        | inl (r, e) ↦ rw (e, run_session) (detect-IsForeignKept model own w)
        | inr (e, failed) ↦ rw (failed, run_session) (refl, refl)
      ]
  session-IsForeignKept model user (post_schedule body) w =
      create-IsForeignKept (record body { user_id = user }) w
  session-IsForeignKept model user (post_sync req) w =
      sync-IsForeignKept (record req { user_id = user }) w

  run-IsForeignKept :
      (model : MlModel) (user : ℕ) (request : BodyRequest) (w : World)
      → IsForeignKept user w.db (run_request model env user request w).db
  unfolding run_request
  run-IsForeignKept model user request w =
      either_branch (λ (v : World). IsForeignKept user w.db v.db) env.database_available _ w
        (session-IsForeignKept model user request w) (refl, refl)

module _ (model : MlModel) (env : Environment) (header : Option (List ℕ)) (request : BodyRequest)
    (w : World) where
  -- A request that names a user in its body is refused with the world unchanged, or its header
  -- authenticates that user; then the schedules and the profiles of all other users are as before.
  pub foreign_kept :
      let (result, w') = handle_request model env header request w in
      ((e : Error) × (result ≡ err e) × (w' ≡ w))
      ⊎ ((user : ℕ) × (get_authenticated_user_id header ≡ ok user)
          × (claimed_user request ≡ user)
          × IsForeignKept user w.db w'.db)
  unfolding handle_request verify_path_user_id ensure_self
  foreign_kept = elim (Result-cases (get_authenticated_user_id header)) [
    | inl (user, named) ↦ elim (Bool-cases (claimed_user request == user)) [
      | inl own ↦ inr (
        user,
        named,
        ground (arith, own),
        rw (named, handle_request, own) (run-IsForeignKept env model user request w),
      )
      | inr other ↦ inl (
        forbidden,
        rw (named, handle_request, other) refl,
        rw (named, handle_request, other) refl,
      )
    ]
    | inr (e, failed) ↦ inl (e, rw (failed, handle_request) refl, rw (failed, handle_request) refl)
  ]
