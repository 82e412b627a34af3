-- ===== src/Rabbit/Topology.antt =====
-- internal/rabbit/topology.go: the declarations sent to the broker, in their order. The broker is a
-- parameter: whether it takes a declaration.
pub mod DeadLetters
mod Samples
use Prim.Native.String.{◌++◌ as append}
use reactive_commons_go.Base.{
  suc, ◌-◌, ◌%◌, ℕ, ◌+◌, ◌/◌, String, Bool, true, false, List, [], ◌∷◌, ◌++◌, Option, none, some,
  if◌then◌else◌, is_empty,
}
use reactive_commons_go.Base.Dict.{Dict, insert}
use reactive_commons_go.Base.Int.{ℤ, pos, negsuc, int32}
use reactive_commons_go.Rabbit.Config.{Config}

pub data Arg : Type 0 where
  text : String → Arg
  int32_ : ℤ → Arg

pub data Kind : Type 0 where
  topic direct : Kind

pub data Declaration : Type 0 where
  exchange : String → Kind → Bool → Declaration
  -- name, durable, auto-delete, exclusive, arguments
  queue : String → Bool → Bool → Bool → Option (Dict Arg) → Declaration
  -- queue, exchange, routing key
  binding : String → String → String → Declaration

abbrev pub arg_dead_letter_exchange : String
arg_dead_letter_exchange = "x-dead-letter-exchange"

abbrev pub arg_queue_type : String
arg_queue_type = "x-queue-type"

-- The loop over `extra` in the order of its keys in the list.
unfoldable pub merge : Dict Arg → Dict Arg → Dict Arg
unfolding insert
merge args [] = args
merge args ((k, v) ∷ extra) = merge (insert k v args) extra

-- A nil table in place of an empty one.
abbrev pub unless_empty : Dict Arg → Option (Dict Arg)
unless_empty [] = none
unless_empty (a ∷ args) = some (a ∷ args)

module _ (cfg : Config) where
  unfoldable pub events_dlq_exchange : String
  events_dlq_exchange = append cfg.app_name (append "." (append cfg.domain_events_exchange ".DLQ"))

  unfoldable pub events_retry_exchange : String
  events_retry_exchange = append cfg.app_name (append "." cfg.domain_events_exchange)

  unfoldable pub direct_dlq_exchange : String
  direct_dlq_exchange = append cfg.direct_messages_exchange ".DLQ"

  unfoldable pub queue_args : Dict Arg → Option (Dict Arg)
  unfolding merge
  queue_args extra = unless_empty (
      merge (if is_empty cfg.queue_type then [] else (arg_queue_type, text cfg.queue_type) ∷ [])
        extra)

  -- `QueueDeclare(name, true, false, false, false, t.QueueArgs(extra))`
  abbrev pub durable_queue : String → Dict Arg → Declaration
  durable_queue name extra = queue name true false false (queue_args extra)

  abbrev dead_letters_to : String → Dict Arg
  dead_letters_to ex = if cfg.with_dlq_retry then (arg_dead_letter_exchange, text ex) ∷ [] else []

  unfoldable pub declare_exchanges : List Declaration
  declare_exchanges =
      exchange cfg.domain_events_exchange topic true
      ∷ exchange cfg.direct_messages_exchange direct true
      ∷ exchange cfg.global_reply_exchange topic true
      ∷ []

  abbrev pub events_queue : String
  events_queue = append cfg.app_name ".subsEvents"

  abbrev pub queries_queue : String
  queries_queue = append cfg.app_name ".query"

  unfoldable pub declare_events_queue : Declaration
  unfolding queue_args events_dlq_exchange
  declare_events_queue = durable_queue events_queue (dead_letters_to events_dlq_exchange)

  unfoldable pub declare_commands_queue : Declaration
  unfolding queue_args direct_dlq_exchange
  declare_commands_queue = durable_queue cfg.app_name (dead_letters_to direct_dlq_exchange)

  unfoldable pub declare_queries_queue : Declaration
  unfolding queue_args direct_dlq_exchange
  declare_queries_queue = durable_queue queries_queue (dead_letters_to direct_dlq_exchange)

  unfoldable pub declare_temp_queue : String → Declaration
  declare_temp_queue name = queue name false true true none

  -- `int32(t.cfg.RetryDelay / time.Millisecond)`: the division rounds towards 0, and the bits of -q
  -- are those of 2^32 - q.
  unfoldable pub message_ttl : ℤ
  message_ttl = elim cfg.retry_delay [
    | pos d ↦ int32 (d / 1000000)
    | negsuc d ↦ int32 (4294967296 - suc d / 1000000 % 4294967296)
  ]

  unfoldable pub declare_events_dlq_retry : String → List Declaration
  unfolding queue_args events_dlq_exchange events_retry_exchange message_ttl
  declare_events_dlq_retry queue_ =
      exchange events_retry_exchange topic true
      ∷ exchange events_dlq_exchange topic true
      ∷ durable_queue (append queue_ ".DLQ") (
          (arg_dead_letter_exchange, text events_retry_exchange)
          ∷ ("x-message-ttl", int32_ message_ttl)
          ∷ [])
      ∷ binding (append queue_ ".DLQ") events_dlq_exchange "#"
      ∷ binding queue_ events_retry_exchange "#"
      ∷ []

  unfoldable pub declare_direct_dlq_retry : String → String → List Declaration
  unfolding queue_args direct_dlq_exchange message_ttl
  declare_direct_dlq_retry origin_queue routing_key =
      exchange direct_dlq_exchange direct true
      ∷ durable_queue (append origin_queue ".DLQ") (
          (arg_dead_letter_exchange, text cfg.direct_messages_exchange)
          ∷ ("x-message-ttl", int32_ message_ttl)
          ∷ [])
      ∷ binding (append origin_queue ".DLQ") direct_dlq_exchange routing_key
      ∷ []

-- The declarations are made one after the other, up to the first that the broker refuses, which is
-- the error.
unfoldable pub declare :
    (Declaration → Bool) → List Declaration → List Declaration × Option Declaration
declare takes [] = ([], none)
declare takes (d ∷ ds) =
    let (made, failed) = declare takes ds in if takes d then (d ∷ made, failed) else ([], some d)

unfoldable pub bind_queue : String → String → String → Declaration
bind_queue queue_ exchange_ routing_key = binding queue_ exchange_ routing_key
