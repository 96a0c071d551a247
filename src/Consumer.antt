-- ===== src/Consumer.antt =====
-- How the consumer reads and dispatches messages: `_to_user_id`, `TOPIC_HANDLERS` and
-- `start_consumer` of app/kafka/consumer.py. A value of a JSON message is what `json.loads` makes of
-- it.
pub mod Ids
pub mod Runs
use moaje_work.Prelude.{ℕ, ◌+◌, Bool, true, false, Option, none, some, List, [], ◌∷◌, ℤ, pos, ◌++◌}
use moaje_work.Text.{python_int}
use moaje_work.Fds.{MlModel}
use moaje_work.Database.{World, Environment}
use moaje_work.System.{Message, consume}

-- A user id as it comes: an empty or missing value, a text that is not empty, a whole number that
-- is not 0, and a list or an object, of which `int` raises TypeError. A fraction counts as the
-- whole number that `int` makes of it.
pub data RawId : Type 0 where
  absent : RawId
  text : ℕ → List ℕ → RawId
  number : ℤ → RawId
  structure : RawId

unfoldable pub to_user_id : (ℕ → Option ℕ) → RawId → Option ℤ
to_user_id digit_value absent = none
to_user_id digit_value (text c cs) = python_int digit_value (c ∷ cs)
to_user_id digit_value (number n) = some n
to_user_id digit_value structure = none

-- What Kafka hands over: a message of a topic without a handler, one that does not parse, and one
-- that does, with the surroundings of its handling.
pub data Delivery : Type 0 where
  unhandled_topic unreadable : Delivery
  readable : Environment → Message → Delivery

-- One round of the loop: the connection fails, or it delivers messages until it is lost, or until
-- the task is cancelled between two of them; the task may also be cancelled before there is a
-- connection.
pub data Session : Type 0 where
  start_failed cancelled_before : Session
  lost cancelled_after : List Delivery → Session

pub record Run : Type 0 where
  pub world : World
  pub cancelled : Bool
  -- the seconds slept between the attempts
  pub waited : ℕ

module _ (root : ℤ → ℕ → ℕ) (model : MlModel) where
  -- The body of `async for`: what a message raises is logged.
  unfoldable pub handle_delivery : Delivery → World → World
  handle_delivery unhandled_topic w = w
  handle_delivery unreadable w = w
  handle_delivery (readable env message) w = consume root model env message w

  unfoldable pub handle_deliveries : List Delivery → World → World
  handle_deliveries [] w = w
  handle_deliveries (d ∷ deliveries) w = handle_deliveries deliveries (handle_delivery d w)

  -- `start_consumer` on the rounds that its surroundings give it, each handled after `waited`
  -- seconds of sleep.
  unfoldable pub start_consumer : List Session → ℕ → World → Run
  start_consumer [] waited w = record { world = w; cancelled = false; waited = waited }
  start_consumer (start_failed ∷ sessions) waited w = start_consumer sessions (waited + 10) w
  start_consumer (cancelled_before ∷ sessions) waited w = record {
    world = w;
    cancelled = true;
    waited = waited;
  }
  start_consumer (lost deliveries ∷ sessions) waited w =
      start_consumer sessions (waited + 10) (handle_deliveries deliveries w)
  start_consumer (cancelled_after deliveries ∷ sessions) waited w = record {
    world = handle_deliveries deliveries w;
    cancelled = true;
    waited = waited;
  }
