-- ===== src/Rabbit/Application.antt =====
-- internal/rabbit/application.go: what `Start` does, in order, the topology that it declares, the
-- listeners that it starts, and the health. The broker and the listeners' ends are parameters.
pub mod Coverage
pub mod Health
pub mod Restore
pub mod Lifecycle
pub mod Drain
mod Samples
use Prim.Native.String.{◌++◌ as append}
use reactive_commons_go.Base.{
  ℕ, String, Bool, true, false, not, ◌&&◌, List, [], ◌∷◌, ◌++◌, map, Option, none, some,
  if◌then◌else◌, is_empty,
}
use reactive_commons_go.Base.Dict.{Dict}
use reactive_commons_go.Rabbit.Config.{Config}
use reactive_commons_go.Rabbit.Topology.{
  Declaration, declare_exchanges, declare_events_queue, declare_commands_queue,
  declare_queries_queue, declare_temp_queue, declare_events_dlq_retry, declare_direct_dlq_retry,
  bind_queue, events_queue, queries_queue, declare,
}
use reactive_commons_go.Rabbit.Consumer.{
  ConsumerState, running, SupervisedConsumer, ConsumerHealth, mark_stopped,
  stopped as consumer_stopped, rebuilding,
}
use reactive_commons_go.Rabbit.Connection.{
  ConnectionState, ConnectionHealth, connected, idle, reconnecting, stopped,
}

-- What `Start` finds in the registry, and the names of the two temporary queues; that of the
-- notifications is "" where no handler is registered for one.
pub record App : Type 0 where
  pub event_names : List String
  pub command_names : List String
  pub query_names : List String
  pub notification_names : List String
  pub reply_queue : String
  pub notification_queue : String

abbrev pub is_none_left : List String → Bool
is_none_left [] = true
is_none_left (_ ∷ _) = false

module _ (cfg : Config) (a : App) where
  abbrev when_retrying : List Declaration → List Declaration
  when_retrying ds = if cfg.with_dlq_retry then ds else []

  unfoldable pub declare_events : List Declaration
  unfolding declare_events_queue declare_events_dlq_retry bind_queue
  declare_events =
      if is_none_left a.event_names
      then []
      else declare_events_queue cfg
        ∷ (when_retrying (declare_events_dlq_retry cfg (events_queue cfg))
            ++ map (bind_queue (events_queue cfg) cfg.domain_events_exchange) a.event_names)

  unfoldable pub declare_commands : List Declaration
  unfolding declare_commands_queue declare_direct_dlq_retry bind_queue
  declare_commands =
      if is_none_left a.command_names
      then []
      else declare_commands_queue cfg
        ∷ (when_retrying (declare_direct_dlq_retry cfg cfg.app_name cfg.app_name)
            ++ (bind_queue cfg.app_name cfg.direct_messages_exchange cfg.app_name ∷ []))

  unfoldable pub declare_queries : List Declaration
  unfolding declare_queries_queue declare_direct_dlq_retry bind_queue
  declare_queries =
      if is_none_left a.query_names
      then []
      else declare_queries_queue cfg
        ∷ (when_retrying (declare_direct_dlq_retry cfg (queries_queue cfg) (queries_queue cfg))
            ++ (bind_queue (queries_queue cfg) cfg.direct_messages_exchange (queries_queue cfg)
                ∷ []))

  unfoldable pub declare_notifications : List Declaration
  unfolding declare_temp_queue bind_queue
  declare_notifications =
      if is_empty a.notification_queue
      then []
      else declare_temp_queue cfg a.notification_queue
        ∷ map (bind_queue a.notification_queue cfg.domain_events_exchange) a.notification_names

  unfoldable pub declare_replies : List Declaration
  unfolding declare_temp_queue bind_queue
  declare_replies =
      declare_temp_queue cfg a.reply_queue
      ∷ bind_queue a.reply_queue cfg.global_reply_exchange a.reply_queue
      ∷ []

  -- All that `declareTopology` asks the broker for if it refuses nothing.
  unfoldable pub topology : List Declaration
  unfolding declare_exchanges
  topology =
      declare_exchanges cfg
      ++ (declare_events
          ++ (declare_commands ++ (declare_queries ++ (declare_notifications ++ declare_replies))))

  -- `startListeners`: the kinds in order, each with its queue.
  unfoldable pub listeners : List (String × String)
  listeners =
      (if is_none_left a.event_names then [] else ("event", events_queue cfg) ∷ [])
      ++ ((if is_none_left a.command_names then [] else ("command", cfg.app_name) ∷ [])
          ++ ((if is_none_left a.query_names then [] else ("query", queries_queue cfg) ∷ [])
              ++ (("reply", a.reply_queue)
                  ∷ (if is_empty a.notification_queue
                      then []
                      else ("notification", a.notification_queue) ∷ []))))

-- The names, in their order, of the consumers that `Health` reports.
unfoldable pub named_consumers : App → List String
named_consumers a =
    (if is_none_left a.event_names then [] else "event" ∷ [])
    ++ ((if is_none_left a.command_names then [] else "command" ∷ [])
        ++ ((if is_none_left a.query_names then [] else "query" ∷ [])
            ++ ("reply" ∷ (if is_empty a.notification_queue then [] else "notification" ∷ []))))

-- The loop of `startListeners`: every listener is started, and the errors are collected. `start` is
-- how the start of a listener on a queue ends.
unfoldable pub start_listeners :
    (String → String → Option String)
    → List (String × String)
    → List String × List (String × String)
start_listeners start [] = ([], [])
start_listeners start ((kind, queue) ∷ ls) =
    let (started, errors) = start_listeners start ls in
    (kind ∷ started, elim (start kind queue) [ none ↦ errors | some e ↦ (kind, e) ∷ errors ])

pub data StartError : Type 0 where
  not_dialled not_opened not_closed : String → StartError
  -- no channel for the topology, or a declaration that the broker refuses
  no_channel : String → StartError
  undeclared : Declaration → StartError
  not_started : List (String × String) → StartError

abbrev pub joined : List (String × String) → Option StartError
joined [] = none
joined (e ∷ es) = some (not_started (e ∷ es))

-- `bringUpConsumers`; `channel` is the error of opening the channel for the topology.
unfoldable pub bring_up_consumers :
    Config
    → App
    → Option String
    → (Declaration → Bool)
    → (String → String → Option String)
    → Option StartError
unfolding topology listeners declare start_listeners
bring_up_consumers cfg a channel takes start = elim channel [
  | some e ↦ some (no_channel e)
  | none ↦ elim ((declare takes (topology cfg a)).1) [
    | some d ↦ some (undeclared d)
    | none ↦ joined (start_listeners start (listeners cfg a)).1
  ]
]

-- A snapshot of the health; `conn` is `none` before `Start` has dialled.
pub record HealthReport : Type 0 where
  pub ready : Bool
  pub connection : ConnectionHealth
  pub consumers : Dict ConsumerHealth
  pub healthy : Bool

abbrev pub is_running : ConsumerState → Bool
is_running running = true
is_running consumer_stopped = false
is_running rebuilding = false

abbrev pub is_connected : ConnectionState → Bool
is_connected connected = true
is_connected idle = false
is_connected reconnecting = false
is_connected stopped = false

-- The loop over the consumers.
unfoldable pub all_running : Bool → Dict SupervisedConsumer → Bool
all_running healthy [] = healthy
all_running healthy ((_, sup) ∷ refs) =
    all_running (if is_running sup.health.state then healthy else false) refs

abbrev pub snapshots : Dict SupervisedConsumer → Dict ConsumerHealth
snapshots [] = []
snapshots ((name, sup) ∷ refs) = (name, sup.health) ∷ snapshots refs

abbrev pub connection_health : Option ConnectionHealth → ConnectionHealth
connection_health none = record { state = idle; last_error = "" }
connection_health (some h) = h

unfoldable pub health : Bool → Option ConnectionHealth → Dict SupervisedConsumer → HealthReport
unfolding all_running
health ready conn refs =
    let c = connection_health conn in
    record {
      ready = ready;
      connection = c;
      consumers = snapshots refs;
      healthy = all_running (ready && is_connected c.state) refs;
    }

unfoldable pub mark_consumers_stopped : Dict SupervisedConsumer → Dict SupervisedConsumer
unfolding mark_stopped
mark_consumers_stopped [] = []
mark_consumers_stopped ((name, sup) ∷ refs) = (name, mark_stopped sup) ∷ mark_consumers_stopped refs

-- What `Start` does to the connection, to `Ready` and to the consumers.
pub data Act : Type 0 where
  dials brings_up becomes_ready drains marks_stopped closes : Act

-- The outcomes of `DialContext`, `NewSender`, `bringUpConsumers` and the last `Close`.
abbrev not_closed_by : Option String → Option StartError
not_closed_by none = none
not_closed_by (some e) = some (not_closed e)

unfoldable pub start_app :
    Option String → Option String → Option StartError → Option String → List Act × Option StartError
start_app (some e) sender up close = (dials ∷ [], some (not_dialled e))
start_app none (some e) up close = (dials ∷ closes ∷ [], some (not_opened e))
start_app none none (some e) close = (dials ∷ brings_up ∷ closes ∷ [], some e)
start_app none none none close =
    (dials ∷ brings_up ∷ becomes_ready ∷ drains ∷ marks_stopped ∷ closes ∷ [], not_closed_by close)
