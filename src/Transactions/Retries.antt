-- ===== src/Transactions/Retries.antt =====
-- A transaction that is delivered again and again is judged in the end.
use moaje_work.Prelude.{
  ℕ, ◌≡◌, inl, inr, Bool, true, ◌&&◌, some, List, [], ◌∷◌, any, arith, Bool-cases, ℤ,
}
use moaje_work.Fds.{MlModel, InferenceLog}
use moaje_work.Fds.Detector.{find_verdict}
use moaje_work.Database.{World, Environment}
use moaje_work.Transactions.{
  TransactionEvent, transaction_key, clear_caches, handle_transaction_succeeded, is_accepted,
}
use moaje_work.Transactions.Delivery.{session-stored, stored_session, handle_up, handle_down}

abbrev pub is_up : Environment → Bool
is_up env = env.database_available && env.kafka_available

module _ (root : ℤ → ℕ → ℕ) (model : MlModel) (event : TransactionEvent) where
  -- One delivery after the other, each in its own environment.
  unfoldable pub deliver_in : List Environment → World → World
  deliver_in [] w = w
  deliver_in (env ∷ envs) w = deliver_in envs (handle_transaction_succeeded root model env event w)

  abbrev pub Judged : World → Type 0
  Judged w =
      (l : InferenceLog) × (find_verdict event.user_id (transaction_key event) w.db.inference_logs
        ≡ some l)

  verdict_now :
      (env : Environment) (w : World)
      → is_accepted event ≡ true
      → is_up env ≡ true
      → Judged (handle_transaction_succeeded root model env event w)
  verdict_now env w fits up =
      rw (handle_up root model env event w (ground (arith, up))) (
        session-stored root model env event (clear_caches event.user_id w) (ground (arith, up))
          fits)

  verdict_stays :
      (env : Environment) (w : World)
      → Judged w
      → Judged (handle_transaction_succeeded root model env event w)
  unfolding clear_caches
  verdict_stays env w (l, h) = elim (Bool-cases env.database_available) [
    | inl up ↦
        rw (handle_up root model env event w up, stored_session root model env event w l h) (l, h)
    | inr down ↦ rw (handle_down root model env event w down) (l, h)
  ]

  verdict_after : (envs : List Environment) (w : World) → Judged w → Judged (deliver_in envs w)
  unfolding deliver_in
  verdict_after [] w h = h
  verdict_after (env ∷ envs) w h =
      verdict_after envs (handle_transaction_succeeded root model env event w)
        (verdict_stays env w h)

  -- If the amount of a transaction is not negative and fits its column, as its key does, and the
  -- database and Kafka answer in one of its deliveries, it has a verdict after all of them, whichever
  -- services fail in the others.
  pub verdict_in_the_end :
      (envs : List Environment) (w : World)
      → is_accepted event ≡ true
      → any is_up envs ≡ true
      → Judged (deliver_in envs w)
  unfolding deliver_in
  verdict_in_the_end [] w fits h = cc
  verdict_in_the_end (env ∷ envs) w fits h = elim (Bool-cases (is_up env)) [
    | inl up ↦
        verdict_after envs (handle_transaction_succeeded root model env event w)
          (verdict_now env w fits up)
    | inr down ↦
        verdict_in_the_end envs (handle_transaction_succeeded root model env event w) fits
          (ground arith)
  ]
