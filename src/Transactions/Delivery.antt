-- ===== src/Transactions/Delivery.antt =====
-- Kafka delivers a transaction at least once: what a second delivery does, and what an alert that
-- cannot be published does to its transaction.
use moaje_work.Fds.Score.{Assessment}
use moaje_work.Prelude.{
  ℕ, ◌≡◌, refl, ◌∙◌, ap, inl, inr, Bool, true, false, none, some, List, ◌++◌, String, arith, ℤ,
  Option-cases, Bool-cases, if◌then◌else◌, any_of_find, [], ◌∷◌, pos_part,
}
use moaje_work.Fds.{DetectRequest, DetectResponse, InferenceLog, MlModel}
use moaje_work.Fds.Detector.{find_verdict, assess_request, after_insert, publish_fds_alert, detect}
use moaje_work.Fds.Verdicts.{detect-Answered, inserted, store_fresh, all_logs}
use moaje_work.Fds.Unique.{detect-errors}
use moaje_work.Spending.Welford.{write_profile, update_found, update_profile_from_transaction}
use moaje_work.Spending.ProfileStore.{get_or_create_profile, profile_from_db}
use moaje_work.Database.{World, Environment, Result, err, kafka_error}
use moaje_work.Database.Results.{Result-cases}
use moaje_work.Transactions.{
  TransactionEvent, transaction_key, request_of, clear_caches, rolled_back, judge, handle_session,
  handle_transaction_succeeded, is_accepted, judge_accepted,
}

-- Only the profiles and the cache change when a profile is created or updated.
create-logs :
    (env : Environment) (user : ℕ) (w : World)
    → (get_or_create_profile env user w).1.db.inference_logs ≡ w.db.inference_logs
unfolding get_or_create_profile profile_from_db
create-logs env user w = ground arith

found-logs :
    (root : ℤ → ℕ → ℕ) (user amount : ℕ) (c : Bool) (w : World)
    → (update_found root user amount c w).db.inference_logs ≡ w.db.inference_logs
unfolding update_found write_profile
found-logs root user amount c w = ground arith

update-logs :
    (root : ℤ → ℕ → ℕ) (env : Environment) (user amount : ℕ) (c : Bool) (w : World)
    → (update_profile_from_transaction root env user amount c w).db.inference_logs
      ≡ w.db.inference_logs
unfolding update_profile_from_transaction write_profile
update-logs root env user amount c w = ground (
  arith,
  create-logs env user w,
  found-logs root user amount c (get_or_create_profile env user w).1,
)

module _ (root : ℤ → ℕ → ℕ) (model : MlModel) (env : Environment) (event : TransactionEvent)
    (w : World) where
  -- Kafka answers, so the judgement is stored.
  judge-stored :
      env.kafka_available ≡ true
      → is_accepted event ≡ true
      → (l : InferenceLog) × (find_verdict event.user_id
            (transaction_key event)
            (judge root model env event w).db.inference_logs
          ≡ some l)
  unfolding judge judge_accepted request_of
  judge-stored kafka fits =
      let judged = (detect model env (request_of event) w).1 in
      elim (Result-cases (detect model env (request_of event) w).0) [
        | inl (r, e) ↦
            let a =
              detect-Answered model env (request_of event) w judged r
                (ap (λ (x : Result DetectResponse). (x, judged)) e) in
            let logs : (judge root model env event w).db.inference_logs ≡ judged.db.inference_logs =
              rw (fits, judge, e, judge_accepted)
                (update-logs root env event.user_id (pos_part event.amount) true judged) in
            (a.log, ap (find_verdict event.user_id (transaction_key event)) logs ∙ a.found)
        | inr (e, failed) ↦
            let (_, down, _, _) = detect-errors model env (request_of event) w e failed in
            cc (kafka, down)
      ]

  pub session-stored :
      env.kafka_available ≡ true
      → is_accepted event ≡ true
      → (l : InferenceLog) × (find_verdict event.user_id
            (transaction_key event)
            (handle_session root model env event w).db.inference_logs
          ≡ some l)
  unfolding handle_session
  session-stored kafka fits =
      elim (Option-cases (find_verdict event.user_id (transaction_key event) w.db.inference_logs)) [
        | inl new ↦ rw (new, handle_session) (judge-stored kafka fits)
        | inr (l, dup) ↦ rw (dup, handle_session) (l, dup)
      ]

  -- An event that is refused changes nothing.
  refused : is_accepted event ≡ false → handle_session root model env event w ≡ w
  unfolding handle_session judge
  refused bad =
      elim (Option-cases (find_verdict event.user_id (transaction_key event) w.db.inference_logs)) [
        | inl new ↦ rw (new, handle_session, bad, judge) refl
        | inr (l, dup) ↦ rw (dup, handle_session) refl
      ]

pub stored_session :
    (root : ℤ → ℕ → ℕ) (model : MlModel) (env : Environment) (event : TransactionEvent) (w : World)
    (l : InferenceLog)
    → find_verdict event.user_id (transaction_key event) w.db.inference_logs ≡ some l
    → handle_session root model env event (clear_caches event.user_id w)
      ≡ clear_caches event.user_id w
unfolding handle_session clear_caches
stored_session root model env event w l h = rw (h, handle_session) refl

pub handle_up :
    (root : ℤ → ℕ → ℕ) (model : MlModel) (env : Environment) (event : TransactionEvent) (w : World)
    → env.database_available ≡ true
    → handle_transaction_succeeded root model env event w
      ≡ handle_session root model env event (clear_caches event.user_id w)
unfolding handle_transaction_succeeded
handle_up root model env event w db =
    let cleared = clear_caches event.user_id w in
    ap (λ b. if b then handle_session root model env event cleared else cleared) db

pub handle_down :
    (root : ℤ → ℕ → ℕ) (model : MlModel) (env : Environment) (event : TransactionEvent) (w : World)
    → env.database_available ≡ false
    → handle_transaction_succeeded root model env event w ≡ clear_caches event.user_id w
unfolding handle_transaction_succeeded
handle_down root model env event w db =
    let cleared = clear_caches event.user_id w in
    ap (λ b. if b then handle_session root model env event cleared else cleared) db

-- A transaction handled while the database and Kafka answer is handled once: another delivery,
-- whatever the model, the time and the other transactions are by then, only clears the user's
-- caches again. The tables and the published messages stay as they are.
pub redelivered :
    (root : ℤ → ℕ → ℕ) (model model' : MlModel) (env env' : Environment) (event : TransactionEvent)
    (w : World)
    → env.database_available ≡ true
    → env.kafka_available ≡ true
    → let w' = handle_transaction_succeeded root model env event w in
      handle_transaction_succeeded root model' env' event w' ≡ clear_caches event.user_id w'
redelivered root model model' env env' event w db kafka =
    let cleared = clear_caches event.user_id w in
    let handled = handle_session root model env event cleared in
    rw (handle_up root model env event w db) (elim (Bool-cases env'.database_available) [
      | inr down ↦ handle_down root model' env' event handled down
      | inl up ↦
          handle_up root model' env' event handled up ∙ elim (Bool-cases (is_accepted event)) [
            | inl fits ↦
                let (l, stored) = session-stored root model env event cleared kafka fits in
                stored_session root model' env' event handled l stored
            | inr bad ↦ refused root model' env' event (clear_caches event.user_id handled) bad
          ]
    ])

after_insert-down :
    (env : Environment) (req : DetectRequest) (a : Assessment) (w : World)
    → env.kafka_available ≡ false
    → a.alerted ≡ true
    → (after_insert env req a w).0 ≡ err kafka_error
unfolding after_insert publish_fds_alert
after_insert-down env req a w kafka alert = ground arith

find_prefix :
    (user : ℕ) (key : String) (xs ys : List InferenceLog)
    → find_verdict user key (xs ++ ys) ≡ none
    → find_verdict user key xs ≡ none
unfolding find_verdict
find_prefix user key [] ys h = refl
find_prefix user key (x ∷ xs) ys h = ground (arith, find_prefix user key xs ys)

detect-down :
    (model : MlModel) (env : Environment) (req : DetectRequest) (w : World)
    → env.kafka_available ≡ false
    → (assess_request model env req w.db).alerted ≡ true
    → find_verdict req.user_id req.transaction_id (w.db.inference_logs ++ env.concurrent_logs)
      ≡ none
    → (detect model env req w).0 ≡ err kafka_error
unfolding detect find_verdict
detect-down model env req w kafka alert new =
    let a = assess_request model env req w.db in
    let before =
      find_prefix req.user_id req.transaction_id w.db.inference_logs env.concurrent_logs new in
    let fresh = any_of_find _ (all_logs env req a w) new in
    rw (before, detect, store_fresh env req a w fresh)
      (after_insert-down env req a (inserted env req a w) kafka alert)

-- With the database but not Kafka answering, a new transaction that calls for an alert is dropped:
-- the handler returns, no verdict of the transaction is stored, the profiles stay as they were and
-- nothing is published.
pub alert_dropped :
    (root : ℤ → ℕ → ℕ) (model : MlModel) (env : Environment) (event : TransactionEvent) (w : World)
    → env.database_available ≡ true
    → env.kafka_available ≡ false
    → (assess_request model env (request_of event) w.db).alerted ≡ true
    → find_verdict event.user_id
        (transaction_key event)
        (w.db.inference_logs ++ env.concurrent_logs)
      ≡ none
    → let w' = handle_transaction_succeeded root model env event w in
      (find_verdict event.user_id (transaction_key event) w'.db.inference_logs ≡ none)
      × (w'.db.profiles ≡ w.db.profiles)
      × (w'.published ≡ w.published)
unfolding handle_session judge judge_accepted request_of clear_caches rolled_back
alert_dropped root model env event w db kafka alert new =
    let cleared = clear_caches event.user_id w in
    let failed = detect-down model env (request_of event) cleared kafka alert new in
    let before =
      find_prefix event.user_id (transaction_key event) w.db.inference_logs env.concurrent_logs
        new in
    elim (Bool-cases (is_accepted event)) [
      | inl fits ↦
          let dropped : handle_session root model env event cleared ≡ rolled_back env cleared =
            rw (before, handle_session, fits, judge, failed, judge_accepted) refl in
          rw (handle_up root model env event w db, dropped) (new, refl, refl)
      | inr bad ↦
          rw (handle_up root model env event w db, refused root model env event cleared bad)
            (before, refl, refl)
    ]
