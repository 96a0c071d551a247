-- ===== src/Fds/Unique.antt =====
-- `detect` under the unique index on (user_id, transaction_id), and the errors it can raise.
use moaje_work.Prelude.{
  ◌≡◌, refl, ◌∙◌, inl, inr, true, false, none, List, [], ◌∷◌, ◌++◌, arith, Option-cases, Bool-cases,
  any, any-append, eq_iff,
}
use moaje_work.Database.{World, Environment, err, Error, kafka_error}
use moaje_work.Fds.{DetectRequest, InferenceLog, MlModel}
use moaje_work.Fds.Score.{Assessment}
use moaje_work.Fds.Detector.{
  same_transaction, find_verdict, assess_request, new_log, after_insert, store_verdict, detect,
  publish_fds_alert,
}
use moaje_work.Fds.Verdicts.{clashes, inserted, store_fresh, store_clash, find_clash}

-- No two rows have the user and the transaction in common.
abbrev pub IsUnique : List InferenceLog → Type 0
IsUnique [] = Unit
IsUnique (l ∷ ls) = (any (same_transaction l.user_id l.transaction_id) ls ≡ false) × IsUnique ls

same_comm :
    (a b : InferenceLog)
    → same_transaction a.user_id a.transaction_id b ≡ same_transaction b.user_id b.transaction_id a
same_comm a b =
    ground
      (arith, eq_iff a.transaction_id b.transaction_id, eq_iff b.transaction_id a.transaction_id)

append-IsUnique :
    (log : InferenceLog) (ls : List InferenceLog)
    → any (same_transaction log.user_id log.transaction_id) ls ≡ false
    → IsUnique ls
    → IsUnique (ls ++ log ∷ [])
append-IsUnique log [] h u = (refl, tt)
append-IsUnique log (l ∷ ls) h u =
    let same = same_comm log l in
    let split = any-append (same_transaction l.user_id l.transaction_id) ls (log ∷ []) in
    let parts : (same_transaction log.user_id log.transaction_id l ≡ false)
        × (any (same_transaction log.user_id log.transaction_id) ls ≡ false) =
      ground arith in
    (split ∙ rw (u.0, ← same, parts.0), append-IsUnique log ls parts.1 u.1)

after_insert-logs :
    (env : Environment) (req : DetectRequest) (a : Assessment) (w : World)
    → (after_insert env req a w).1.db.inference_logs ≡ w.db.inference_logs
unfolding after_insert
after_insert-logs env req a w = ground arith

after_insert-errors :
    (env : Environment) (req : DetectRequest) (a : Assessment) (w : World) (e : Error)
    → (after_insert env req a w).0 ≡ err e
    → (e ≡ kafka_error) × (env.kafka_available ≡ false) × (a.alerted ≡ true)
unfolding after_insert publish_fds_alert
after_insert-errors env req a w e h = ground arith

module _ (env : Environment) (req : DetectRequest) (a : Assessment) (w : World) where
  store_verdict-IsUnique :
      IsUnique (w.db.inference_logs ++ env.concurrent_logs)
      → IsUnique (store_verdict env req a w).1.db.inference_logs
  store_verdict-IsUnique u = elim (Bool-cases (clashes env req a w)) [
    | inl clash ↦
        let (l, e) = find_clash env req a w clash in rw (store_clash env req a w l clash e) u
    | inr fresh ↦
        rw (store_fresh env req a w fresh, after_insert-logs env req a (inserted env req a w))
          (append-IsUnique (new_log env req a) _ (unfold new_log in fresh) u)
  ]

  store_verdict-errors :
      (e : Error)
      → (store_verdict env req a w).0 ≡ err e
      → (e ≡ kafka_error) × (env.kafka_available ≡ false) × (a.alerted ≡ true)
  store_verdict-errors e h = elim (Bool-cases (clashes env req a w)) [
    | inl clash ↦
        let (l, found) = find_clash env req a w clash in
        let s = store_clash env req a w l clash found in ground arith
    | inr fresh ↦
        after_insert-errors env req a (inserted env req a w) e
          (rw (store_fresh env req a w fresh) at h)
  ]

module _ (model : MlModel) (env : Environment) (req : DetectRequest) (w : World) where
  -- The table keeps one row for a user's transaction, with the rows that other transactions commit
  -- meanwhile, whichever way the call ends.
  pub detect-IsUnique :
      IsUnique w.db.inference_logs
      → IsUnique (w.db.inference_logs ++ env.concurrent_logs)
      → IsUnique (detect model env req w).1.db.inference_logs
  unfolding detect
  detect-IsUnique u v =
      elim (Option-cases (find_verdict req.user_id req.transaction_id w.db.inference_logs)) [
        | inl new ↦
            rw (new, detect)
              (store_verdict-IsUnique env req (assess_request model env req w.db) w v)
        | inr (l, old) ↦ rw (old, detect) u
      ]

  -- In a session whose database answers the only error is that of the publisher, when Kafka does not answer, and only for a new
  -- transaction that calls for an alert: a lost race is answered by the winner's row, never by
  -- IntegrityError.
  pub detect-errors :
      (e : Error)
      → (detect model env req w).0 ≡ err e
      → (e ≡ kafka_error)
        × (env.kafka_available ≡ false)
        × ((assess_request model env req w.db).alerted ≡ true)
        × (find_verdict req.user_id req.transaction_id w.db.inference_logs ≡ none)
  unfolding detect
  detect-errors e h =
      elim (Option-cases (find_verdict req.user_id req.transaction_id w.db.inference_logs)) [
        | inl new ↦
            let (k, down, a) =
              store_verdict-errors env req (assess_request model env req w.db) w e
                (rw (new, detect) at h) in
            (k, down, a, new)
        | inr (l, old) ↦ let same = rw (old, detect) at h in cc
      ]
