-- ===== src/Clients.antt =====
-- What the modules keep between calls: the producer of app/kafka/producer.py, the connection of
-- app/redis/client.py and the model of app/services/fds/detector.py. What the libraries do with
-- them is an argument.
pub mod Producer
use moaje_work.Prelude.{
  ℕ, Bool, true, false, ◌&&◌, Option, none, some, List, [], ◌∷◌, if◌then◌else◌,
}

-- `_producer`: None, an AIOKafkaProducer that was made, and one whose `start` returned.
pub data ProducerState : Type 0 where
  no_producer created started : ProducerState

-- Whether there is a producer to send with, and `_producer` after the call.
unfoldable pub get_producer : Bool → ProducerState → Bool × ProducerState
get_producer kafka_answers no_producer = if kafka_answers then (true, started) else (false, created)
get_producer kafka_answers created = (true, created)
get_producer kafka_answers started = (true, started)

unfoldable pub stop_producer : ProducerState → ProducerState
stop_producer state = no_producer

abbrev is_started : ProducerState → Bool
is_started no_producer = false
is_started created = false
is_started started = true

-- The three `publish_…` functions: `send_and_wait` on a producer that is started or not, while Kafka
-- answers or not, returns or raises.
module _ (send_and_wait : Bool → Bool → Bool) where
  unfoldable pub publish : Bool → ProducerState → Bool × ProducerState
  unfolding get_producer
  publish kafka_answers state =
      let (there, state') = get_producer kafka_answers state in
      (there && send_and_wait (is_started state') kafka_answers, state')

  -- Calls one after the other.
  unfoldable pub publish_all : List Bool → ProducerState → List Bool × ProducerState
  publish_all [] state = ([], state)
  publish_all (kafka_answers ∷ later) state =
      let (sent, state') = publish kafka_answers state in
      let (rest, final) = publish_all later state' in (sent ∷ rest, final)

-- `_redis`: `from_url` makes a client without connecting.
pub data RedisState : Type 0 where
  no_client client : RedisState

unfoldable pub get_redis : RedisState → RedisState
get_redis state = client

unfoldable pub stop_redis : RedisState → RedisState
stop_redis state = no_client

-- `is_redis_available`, where `ping` answers or raises.
unfoldable pub is_redis_available : Bool → RedisState → Bool × RedisState
unfolding get_redis
is_redis_available ping state = (ping, get_redis state)

-- `_ml_model` and `_ml_features`.
pub record MlState (M F : Type 0) : Type 0 where
  pub ml_model : Option M
  pub ml_features : Option F

-- What opening and unpickling the file gives, with the entries that a dictionary has.
pub data ModelFile (M F : Type 0) : Type 0 where
  no_file unreadable : ModelFile M F
  contents : Option M → Option F → ModelFile M F

module _ {M F : Type 0} where
  abbrev store_model : Option M → Option F → MlState M F → Bool × MlState M F
  store_model none features state = (false, state)
  store_model (some model) none state = (false, record state { ml_model = some model })
  store_model (some model) (some features) state =
      (true, record { ml_model = some model; ml_features = some features })

  abbrev read_model : ModelFile M F → MlState M F → Bool × MlState M F
  read_model no_file state = (false, state)
  read_model unreadable state = (false, state)
  read_model (contents model features) state = store_model model features state

  unfoldable pub load_ml_model : ModelFile M F → MlState M F → Bool × MlState M F
  load_ml_model file state = elim state.ml_model [
    | some model ↦ (true, state)
    | none ↦ read_model file state
  ]
