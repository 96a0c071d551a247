-- ===== src/Consumer/Runs.antt =====
-- What the consumer's loop does with everything that Kafka hands over.
use moaje_work.Prelude.{ℕ, ◌+◌, ◌≡◌, refl, List, [], ◌∷◌, ◌++◌, ℤ, ◌∙◌, sym}
use moaje_work.Fds.{MlModel}
use moaje_work.Database.{World, Environment}
use moaje_work.System.{Message, consume, IsQuiet, Reach, here, further, consumed}
use moaje_work.System.Invariant.{IsSound}
use moaje_work.System.Reachable.{Reach-IsSound}
use moaje_work.Consumer.{
  Delivery, unhandled_topic, unreadable, readable, Session, start_failed, cancelled_before, lost,
  cancelled_after, handle_delivery, handle_deliveries, start_consumer,
}

-- The messages that parse, in the order of their delivery.
abbrev pub messages_of : List Delivery → List (Environment × Message)
messages_of [] = []
messages_of (unhandled_topic ∷ deliveries) = messages_of deliveries
messages_of (unreadable ∷ deliveries) = messages_of deliveries
messages_of (readable env message ∷ deliveries) = (env, message) ∷ messages_of deliveries

-- Those of the rounds up to the cancellation.
abbrev pub received : List Session → List (Environment × Message)
received [] = []
received (start_failed ∷ sessions) = received sessions
received (cancelled_before ∷ sessions) = []
received (lost deliveries ∷ sessions) = messages_of deliveries ++ received sessions
received (cancelled_after deliveries ∷ sessions) = messages_of deliveries

abbrev pub AllQuiet : List (Environment × Message) → Type 0
AllQuiet [] = Unit {0}
AllQuiet ((env, message) ∷ messages) = IsQuiet env × AllQuiet messages

module _ (root : ℤ → ℕ → ℕ) (model : MlModel) where
  abbrev pub consume_all : List (Environment × Message) → World → World
  consume_all [] w = w
  consume_all ((env, message) ∷ messages) w =
      consume_all messages (consume root model env message w)

  consume_all-append :
      (ms ns : List (Environment × Message)) (w : World)
      → consume_all (ms ++ ns) w ≡ consume_all ns (consume_all ms w)
  consume_all-append [] ns w = refl
  consume_all-append ((env, message) ∷ ms) ns w =
      consume_all-append ms ns (consume root model env message w)

  handle_deliveries-messages :
      (deliveries : List Delivery) (w : World)
      → handle_deliveries root model deliveries w ≡ consume_all (messages_of deliveries) w
  unfolding handle_deliveries handle_delivery
  handle_deliveries-messages [] w = refl
  handle_deliveries-messages (unhandled_topic ∷ deliveries) w =
      handle_deliveries-messages deliveries w
  handle_deliveries-messages (unreadable ∷ deliveries) w = handle_deliveries-messages deliveries w
  handle_deliveries-messages (readable env message ∷ deliveries) w =
      handle_deliveries-messages deliveries (consume root model env message w)

  start_consumer-received :
      (sessions : List Session) (waited : ℕ) (w : World)
      → (start_consumer root model sessions waited w).world ≡ consume_all (received sessions) w
  unfolding start_consumer
  start_consumer-received [] waited w = refl
  start_consumer-received (start_failed ∷ sessions) waited w =
      start_consumer-received sessions (waited + 10) w
  start_consumer-received (cancelled_before ∷ sessions) waited w = refl
  start_consumer-received (lost deliveries ∷ sessions) waited w =
      start_consumer-received sessions (waited + 10) (handle_deliveries root model deliveries w)
      ∙ (rw (handle_deliveries-messages deliveries w) refl
          ∙ sym (consume_all-append (messages_of deliveries) (received sessions) w))
  start_consumer-received (cancelled_after deliveries ∷ sessions) waited w =
      handle_deliveries-messages deliveries w

  consume_all-Reach :
      (v : World) (messages : List (Environment × Message)) (w : World)
      → AllQuiet messages
      → Reach root model v w
      → Reach root model v (consume_all messages w)
  consume_all-Reach v [] w quiet r = r
  consume_all-Reach v ((env, message) ∷ messages) w (q, quiet) r =
      consume_all-Reach v messages (consume root model env message w) quiet
        (further v w _ r (consumed env message w q))

  -- Whatever connections fail or are lost, the consumer handles the messages that parse, each once
  -- for each delivery and in their order, up to its cancellation; so messages that are delivered
  -- again after a lost connection, and messages that do not parse, leave one verdict to a
  -- transaction, one profile to a user and one alert to a message where that was so before, as long
  -- as each message is handled alone.
  pub start_consumer-IsSound :
      (sessions : List Session) (waited : ℕ) (w : World)
      → AllQuiet (received sessions)
      → IsSound w.db
      → ((start_consumer root model sessions waited w).world ≡ consume_all (received sessions) w)
        × IsSound (start_consumer root model sessions waited w).world.db
  start_consumer-IsSound sessions waited w quiet sound =
      let same = start_consumer-received sessions waited w in
      (
        same,
        rw same (
            Reach-IsSound root model w _ (consume_all-Reach w (received sessions) w quiet (here w))
              sound),
      )
