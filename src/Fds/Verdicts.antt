-- ===== src/Fds/Verdicts.antt =====
-- What `detect` promises about repeated and concurrent requests.
use text.Mathlib.TextPositions.{eq_refl}
use moaje_work.Prelude.{
  ◌≡◌, refl, ◌∙◌, inl, inr, Bool, true, false, none, some, List, [], ◌∷◌, ◌++◌, arith, Option-cases,
  Bool-cases, any, find, find_of_any, find-append_none, any_of_find, sym,
}
use moaje_work.Database.{World, Environment, ok}
use moaje_work.Fds.{DetectRequest, DetectResponse, InferenceLog, MlModel}
use moaje_work.Fds.Score.{Assessment}
use moaje_work.Fds.Detector.{
  same_transaction, find_verdict, verdict_response, insert_log, assess_request, new_log,
  after_insert, store_verdict, detect,
}

-- A row of the request's transaction stands in the table, and answers the request.
pub record Answered (req : DetectRequest) (r : DetectResponse) (logs : List InferenceLog)
    : Type 0 where
  pub log : InferenceLog
  pub found : find_verdict req.user_id req.transaction_id logs ≡ some log
  pub answers : verdict_response log ≡ r

same_transaction_self :
    (req : DetectRequest) (l : InferenceLog)
    → l.user_id ≡ req.user_id
    → l.transaction_id ≡ req.transaction_id
    → same_transaction req.user_id req.transaction_id l ≡ true
same_transaction_self req l e f = rw (e, f) (ground (arith, eq_refl req.transaction_id))

after_insert-answer :
    (env : Environment) (req : DetectRequest) (a : Assessment) (w w' : World) (r : DetectResponse)
    → after_insert env req a w ≡ (ok r, w')
    → (verdict_response (new_log env req a) ≡ r) × (w.db.inference_logs ≡ w'.db.inference_logs)
unfolding after_insert
after_insert-answer env req a w w' r h = ground arith

module _ (env : Environment) (req : DetectRequest) (a : Assessment) (w : World) where
  abbrev pub all_logs : List InferenceLog
  all_logs = w.db.inference_logs ++ env.concurrent_logs

  abbrev pub clashes : Bool
  clashes = any (same_transaction req.user_id req.transaction_id) all_logs

  insert_fresh :
      clashes ≡ false
      → insert_log (new_log env req a) all_logs ≡ some (all_logs ++ new_log env req a ∷ [])
  unfolding insert_log new_log
  insert_fresh h = rw h

  insert_clash : clashes ≡ true → insert_log (new_log env req a) all_logs ≡ none
  unfolding insert_log new_log
  insert_clash h = rw h

  find_new :
      clashes ≡ false
      → find_verdict req.user_id req.transaction_id (all_logs ++ new_log env req a ∷ [])
        ≡ some (new_log env req a)
  unfolding find_verdict new_log
  find_new h =
      find-append_none (same_transaction req.user_id req.transaction_id) all_logs _
        (find_of_any _ all_logs h)
      ∙ rw (same_transaction_self req (new_log env req a) refl refl)

  -- The world in which the row stands.
  abbrev pub inserted : World
  inserted = record w { db = record w.db { inference_logs = all_logs ++ new_log env req a ∷ [] } }

  pub store_fresh : clashes ≡ false → store_verdict env req a w ≡ after_insert env req a inserted
  unfolding store_verdict
  store_fresh h = rw (insert_fresh h, store_verdict)

  pub store_clash :
      (winner : InferenceLog)
      → clashes ≡ true
      → find_verdict req.user_id req.transaction_id all_logs ≡ some winner
      → store_verdict env req a w ≡ (
        ok (verdict_response winner),
        record w { db = record w.db { inference_logs = all_logs } },
      )
  unfolding store_verdict
  store_clash winner clash e = rw (insert_clash clash, e, store_verdict)

  -- A clash has a winner, so the re-read never comes back empty.
  pub find_clash :
      clashes ≡ true
      → (l : InferenceLog) × (find_verdict req.user_id req.transaction_id all_logs ≡ some l)
  unfolding find_verdict
  find_clash clash =
      elim (Option-cases (find (same_transaction req.user_id req.transaction_id) all_logs)) [
        | inl gone ↦ cc (clash, any_of_find _ all_logs gone)
        | inr found ↦ found
      ]

  store_verdict-Answered :
      (r : DetectResponse) (w' : World)
      → store_verdict env req a w ≡ (ok r, w')
      → Answered req r w'.db.inference_logs
  store_verdict-Answered r w' h = elim (Bool-cases clashes) [
    | inl clash ↦
        let (l, e) = find_clash clash in
        let s = store_clash l clash e in
        record { log = l; found = ground (arith, s, h, e); answers = ground (arith, s, h) }
    | inr fresh ↦
        let s = after_insert-answer env req a inserted w' r (sym (store_fresh fresh) ∙ h) in
        record { log = new_log env req a; found = rw (← s.1) (find_new fresh); answers = s.0 }
  ]

pub detect-Answered :
    (model : MlModel) (env : Environment) (req : DetectRequest) (w w' : World) (r : DetectResponse)
    → detect model env req w ≡ (ok r, w')
    → Answered req r w'.db.inference_logs
unfolding detect
detect-Answered model env req w w' r h =
    elim (Option-cases (find_verdict req.user_id req.transaction_id w.db.inference_logs)) [
      | inl new ↦
          store_verdict-Answered env req (assess_request model env req w.db) w r w'
            (rw (new, detect) at h)
      | inr (l, old) ↦
          let same = rw (old, detect) at h in
          record { log = l; found = ground (arith, same, old); answers = ground (arith, same) }
    ]

-- A request that was answered is answered the same again, whatever the model, the time and the
-- other transactions are by then, and the second call changes nothing: neither the tables, nor the
-- count of transactions, nor the published messages.
pub detect_again :
    (model model' : MlModel) (env env' : Environment) (req : DetectRequest) (w w' : World)
    → (r : DetectResponse) → detect model env req w ≡ (ok r, w')
    → detect model' env' req w' ≡ (ok r, w')
detect_again model model' env env' req w w' r h =
    let a = detect-Answered model env req w w' r h in
    unfold detect in rw (a.found, detect, a.answers)
