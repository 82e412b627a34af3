-- ===== src/Kafka/Application.antt =====
-- internal/kafka/application.go, and partitionCount and replyTopicPartitions of topology.go: what
-- `Start` does, in its order, until it returns. The names in `Handlers` are the keys of the snapshots
-- in the order in which `range` visits them, `dials` says which broker `verifyDial` reaches, and
-- `brokers` what each answers to `verifyTopics`.
pub mod Listeners
pub mod Coverage
mod Samples
use reactive_commons_go.Base.{
  ℕ, zero, suc, String, Bool, true, false, not, List, [], ◌∷◌, ◌++◌, map, Option, none, some,
  if◌then◌else◌,
}
use reactive_commons_go.Kafka.Config.{Config}
use reactive_commons_go.Kafka.Topology.{
  TopicConfig, TopicError, broker_unreachable, Checked, found, refused, Broker, verify_topics,
  collect_topics_to_verify,
}
use reactive_commons_go.Kafka.Listener.{is_stopped}

pub record Handlers : Type 0 where
  pub events : List String
  pub notifications : List String
  pub commands : List String
  pub queries : List String

pub data Listener : Type 0 where
  event notification : String → Listener
  command query : Listener
  -- with the number of partitions whose first fetch it awaits
  reply : ℕ → Listener

pub data Act : Type 0 where
  creates_producer : Act
  -- what `verifyTopics` asks the controller for
  creates_topics : List TopicConfig → Act
  opens : Listener → Act
  -- the fields that the accessors return, under the mutex
  publishes_fields : Act
  marks_started : Act
  spawns : Listener → Act
  closes_ready awaits_done : Act
  -- the wait for the handlers, which `HandlerTimeout` bounds
  drains : Act
  closes : Listener → Act
  closes_producer : Act

-- `verifyDial`: some broker can be reached.
unfoldable pub verify_dial : List Bool → Bool
verify_dial [] = false
verify_dial (reached ∷ dials) = if reached then true else verify_dial dials

-- `partitionCount`: the answer of the first broker that gives one.
unfoldable pub partition_count : List (Option ℕ) → Option ℕ
partition_count [] = none
partition_count (none ∷ brokers) = partition_count brokers
partition_count (some n ∷ brokers) = some n

module _ (answers : ℕ → List (Option ℕ)) (cancelled : ℕ → Bool) where
  -- The loop of `replyTopicPartitions` over `left` attempts from `attempt` on; the context ends in the
  -- wait before attempt `i` if `cancelled i`.
  unfoldable pub partitions_from : ℕ → ℕ → ℕ
  unfolding partition_count
  partitions_from zero attempt = 1
  partitions_from (suc left) attempt =
      let rest = partitions_from left (suc attempt) in
      if is_stopped cancelled attempt then 1 else elim (partition_count (answers attempt)) [
        | none ↦ rest
        | some zero ↦ rest
        | some (suc n) ↦ suc n
      ]

  unfoldable pub reply_topic_partitions : ℕ
  unfolding partitions_from
  reply_topic_partitions = partitions_from 5 0

abbrev pub if_any : List String → Listener → List Listener
if_any [] l = []
if_any (_ ∷ _) l = l ∷ []

module _ (cfg : Config) (h : Handlers) (partitions : ℕ) where
  abbrev pub reply_listeners : List Listener
  reply_listeners = if not cfg.disable_reply_listener then reply partitions ∷ [] else []

  -- The listeners in the order in which `Start` opens them.
  unfoldable pub opened : List Listener
  opened =
      reply_listeners
      ++ (if_any h.commands command
          ++ (if_any h.queries query ++ (map event h.events ++ map notification h.notifications)))

  -- `spawnListeners` and `shutdown` go through them in this order.
  unfoldable pub spawned : List Listener
  spawned =
      map event h.events
      ++ (map notification h.notifications
          ++ (if_any h.commands command ++ (if_any h.queries query ++ reply_listeners)))

  -- `shutdown`
  unfoldable pub shutdown : List Act
  unfolding spawned
  shutdown = drains ∷ (map closes spawned ++ (closes_producer ∷ []))

  abbrev pub topics : List String
  topics =
      collect_topics_to_verify cfg h.events h.notifications h.commands h.queries
        (not cfg.disable_reply_listener)

  -- What `Start` does and the error it returns.
  unfoldable pub start : List Bool → List Broker → List Act × Option TopicError
  unfolding verify_dial collect_topics_to_verify verify_topics opened spawned shutdown
  start dials brokers =
      if not (verify_dial dials)
      then ([], some broker_unreachable)
      else elim (verify_topics cfg topics brokers) [
        | refused e ↦ (creates_producer ∷ closes_producer ∷ [], some e)
        | found cs ↦ (
          creates_producer
              ∷ creates_topics cs
              ∷ (map opens opened
                  ++ (publishes_fields
                      ∷ marks_started
                      ∷ (map spawns spawned ++ (closes_ready ∷ awaits_done ∷ shutdown)))),
          none,
        )
      ]
