-- ===== src/Clients/Producer.antt =====
-- What becomes of messages after a start of the producer that failed.
use moaje_work.Prelude.{◌≡◌, refl, Bool, true, false, List, [], ◌∷◌, map}
use moaje_work.Clients.{no_producer, created, get_producer, publish, publish_all, stop_producer}

module _ (send_and_wait : Bool → Bool → Bool) where
  created_stays :
      (answers : List Bool)
      → ((k : Bool) → send_and_wait false k ≡ false)
      → publish_all send_and_wait answers created ≡ (map (λ k. false) answers, created)
  unfolding publish_all publish get_producer
  created_stays [] h = refl
  created_stays (k ∷ answers) h = rw (h k, created_stays answers h) refl

  -- If Kafka does not answer at the first message and a producer that was never started sends
  -- nothing, then neither the first message nor any later one is sent, however often Kafka answers
  -- by then, until the producer is stopped; after that one is sent where Kafka answers and a
  -- started producer sends.
  pub never_sent :
      (later : List Bool)
      → ((k : Bool) → send_and_wait false k ≡ false)
      → send_and_wait true true ≡ true
      → let (sent, state) = publish_all send_and_wait (false ∷ later) no_producer in
        (sent ≡ map (λ k. false) (false ∷ later))
        × ((publish send_and_wait true state).0 ≡ false)
        × ((publish send_and_wait true (stop_producer state)).0 ≡ true)
  unfolding publish_all publish get_producer stop_producer
  never_sent later h k = rw (created_stays later h) (refl, h true, k)
