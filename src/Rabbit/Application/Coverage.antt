-- ===== src/Rabbit/Application/Coverage.antt =====
-- internal/rabbit/application.go: the topology serves the listeners that are started on it.
use reactive_commons_go.Base.{
  ◌≡◌, inl, inr, refl, ap, String, Bool, true, false, List, [], ◌∷◌, ◌++◌, map, Option, arith, All,
  All-append, In, In-append_left, In-append_right, if◌then◌else◌, is_empty,
}
use reactive_commons_go.Base.Dict.{Dict}
use reactive_commons_go.Rabbit.Config.{Config}
use reactive_commons_go.Rabbit.Topology.{
  Arg, Declaration, queue, binding, events_queue, queries_queue, declare_events_queue,
  declare_commands_queue, declare_queries_queue, declare_temp_queue, bind_queue, declare_exchanges,
  declare_direct_dlq_retry,
}
use reactive_commons_go.Rabbit.Application.{
  App, is_none_left, declare_events, declare_commands, declare_queries, declare_notifications,
  declare_replies, topology, listeners,
}

-- A queue of this name is declared, with some properties.
abbrev pub IsDeclared : String → List Declaration → Type 0
IsDeclared q ds =
    (durable auto_delete exclusive : Bool) × (args : Option (Dict Arg)) × In
      (queue q durable auto_delete exclusive args) ds

In-map : {A B : Type 0} (f : A → B) (a : A) (xs : List A) → In a xs → In (f a) (map f xs)
In-map f a [] m = absurd m
In-map f a (x ∷ xs) (inl e) = inl (ap f e)
In-map f a (x ∷ xs) (inr m) = inr (In-map f a xs m)

In-else :
    {A : Type 0} (b : Bool) (a : A) (xs ys : List A)
    → b ≡ false
    → In a ys
    → In a (if b then xs else ys)
In-else true a xs ys e m = absurd (ground (arith, e))
In-else false a xs ys e m = m

All-unless :
    {A : Type 0} (P : A → Type 0) (b : Bool) (x : A)
    → (b ≡ false → P x)
    → All P (if b then [] else x ∷ [])
All-unless P true x h = tt
All-unless P false x h = (h refl, tt)

In-last : {A : Type 0} (a : A) (xs : List A) → In a (xs ++ (a ∷ []))
In-last a xs = In-append_right a xs (a ∷ []) (inl refl)

is_none_left-In : (n : String) (names : List String) → In n names → is_none_left names ≡ false
is_none_left-In n [] m = absurd m
is_none_left-In n (x ∷ xs) m = refl

module _ (cfg : Config) (a : App) where
  abbrev events : List Declaration
  events = declare_events cfg a

  abbrev commands : List Declaration
  commands = declare_commands cfg a

  abbrev queries : List Declaration
  queries = declare_queries cfg a

  abbrev notifications : List Declaration
  notifications = declare_notifications cfg a

  abbrev replies : List Declaration
  replies = declare_replies cfg a

  holds_events : (d : Declaration) → In d events → In d (topology cfg a)
  unfolding topology
  holds_events d m = In-append_right d (declare_exchanges cfg) _ (In-append_left d events _ m)

  holds_commands : (d : Declaration) → In d commands → In d (topology cfg a)
  unfolding topology
  holds_commands d m =
      In-append_right d (declare_exchanges cfg) _
        (In-append_right d events _ (In-append_left d commands _ m))

  holds_queries : (d : Declaration) → In d queries → In d (topology cfg a)
  unfolding topology
  holds_queries d m =
      In-append_right d (declare_exchanges cfg) _
        (In-append_right d events _ (In-append_right d commands _ (In-append_left d queries _ m)))

  holds_notifications : (d : Declaration) → In d notifications → In d (topology cfg a)
  unfolding topology
  holds_notifications d m = In-append_right d (declare_exchanges cfg) _ (
      In-append_right d events _ (
        In-append_right d commands _
          (In-append_right d queries _ (In-append_left d notifications _ m))))

  holds_replies : (d : Declaration) → In d replies → In d (topology cfg a)
  unfolding topology
  holds_replies d m = In-append_right d (declare_exchanges cfg) _ (
      In-append_right d events _ (
        In-append_right d commands _
          (In-append_right d queries _ (In-append_right d notifications _ m))))

  events_queue-IsDeclared :
      is_none_left a.event_names ≡ false → IsDeclared (events_queue cfg) (topology cfg a)
  unfolding declare_events_queue declare_events
  events_queue-IsDeclared some_left = (
    _,
    _,
    _,
    _,
    holds_events (declare_events_queue cfg)
        (In-else (is_none_left a.event_names) (declare_events_queue cfg) [] _ some_left (inl refl)),
  )

  commands_queue-IsDeclared :
      is_none_left a.command_names ≡ false → IsDeclared cfg.app_name (topology cfg a)
  unfolding declare_commands_queue declare_commands
  commands_queue-IsDeclared some_left = (
    _,
    _,
    _,
    _,
    holds_commands (declare_commands_queue cfg) (
        In-else (is_none_left a.command_names) (declare_commands_queue cfg) [] _ some_left
          (inl refl)),
  )

  queries_queue-IsDeclared :
      is_none_left a.query_names ≡ false → IsDeclared (queries_queue cfg) (topology cfg a)
  unfolding declare_queries_queue declare_queries
  queries_queue-IsDeclared some_left = (
    _,
    _,
    _,
    _,
    holds_queries (declare_queries_queue cfg) (
        In-else (is_none_left a.query_names) (declare_queries_queue cfg) [] _ some_left (inl refl)),
  )

  notifications_queue-IsDeclared :
      is_empty a.notification_queue ≡ false → IsDeclared a.notification_queue (topology cfg a)
  unfolding declare_notifications declare_temp_queue
  notifications_queue-IsDeclared named = (
    _,
    _,
    _,
    _,
    holds_notifications (declare_temp_queue cfg a.notification_queue) (
        In-else (is_empty a.notification_queue) (declare_temp_queue cfg a.notification_queue) [] _
          named (inl refl)),
  )

  replies_queue-IsDeclared : IsDeclared a.reply_queue (topology cfg a)
  unfolding declare_replies declare_temp_queue
  replies_queue-IsDeclared =
      (_, _, _, _, holds_replies (declare_temp_queue cfg a.reply_queue) (inl refl))

  abbrev Serves : String × String → Type 0
  Serves l = IsDeclared l.1 (topology cfg a)

  listeners-Serves : All Serves (listeners cfg a)
  unfolding listeners
  listeners-Serves = All-append Serves _ _ (All-unless Serves _ _ events_queue-IsDeclared) (
      All-append Serves _ _ (All-unless Serves _ _ commands_queue-IsDeclared) (
        All-append Serves _ _ (All-unless Serves _ _ queries_queue-IsDeclared)
          (replies_queue-IsDeclared, All-unless Serves _ _ notifications_queue-IsDeclared)))

  event-bound :
      (n : String)
      → In n a.event_names
      → In (binding (events_queue cfg) cfg.domain_events_exchange n) (topology cfg a)
  unfolding declare_events bind_queue
  event-bound n m = holds_events (binding (events_queue cfg) cfg.domain_events_exchange n) (
      In-else (is_none_left a.event_names) _ [] _ (is_none_left-In n a.event_names m) (
        inr (
          In-append_right _ _ _
            (In-map (bind_queue (events_queue cfg) cfg.domain_events_exchange) n a.event_names m))))

  notification-bound :
      (n : String)
      → is_empty a.notification_queue ≡ false
      → In n a.notification_names
      → In (binding a.notification_queue cfg.domain_events_exchange n) (topology cfg a)
  unfolding declare_notifications bind_queue
  notification-bound n named m =
      holds_notifications (binding a.notification_queue cfg.domain_events_exchange n) (
        In-else (is_empty a.notification_queue) _ [] _ named (
          inr (
            In-map (bind_queue a.notification_queue cfg.domain_events_exchange) n
              a.notification_names m)))

  command-bound :
      is_none_left a.command_names ≡ false
      → In (binding cfg.app_name cfg.direct_messages_exchange cfg.app_name) (topology cfg a)
  unfolding declare_commands bind_queue
  command-bound some_left =
      holds_commands (binding cfg.app_name cfg.direct_messages_exchange cfg.app_name) (
        In-else (is_none_left a.command_names) _ [] _ some_left (
          inr (
            In-last (binding cfg.app_name cfg.direct_messages_exchange cfg.app_name) (
              if cfg.with_dlq_retry
              then declare_direct_dlq_retry cfg cfg.app_name cfg.app_name
              else []))))

  query-bound :
      is_none_left a.query_names ≡ false
      → In
          (binding (queries_queue cfg) cfg.direct_messages_exchange (queries_queue cfg))
          (topology cfg a)
  unfolding declare_queries bind_queue
  query-bound some_left =
      holds_queries (binding (queries_queue cfg) cfg.direct_messages_exchange (queries_queue cfg)) (
        In-else (is_none_left a.query_names) _ [] _ some_left (
          inr (
            In-last (binding (queries_queue cfg) cfg.direct_messages_exchange (queries_queue cfg)) (
              if cfg.with_dlq_retry
              then declare_direct_dlq_retry cfg (queries_queue cfg) (queries_queue cfg)
              else []))))

  reply-bound : In (binding a.reply_queue cfg.global_reply_exchange a.reply_queue) (topology cfg a)
  unfolding declare_replies bind_queue
  reply-bound =
      holds_replies (binding a.reply_queue cfg.global_reply_exchange a.reply_queue) (inr (inl refl))

-- The topology serves the listeners that are started on it: every listener consumes a queue that is
-- declared, and that queue is bound for all that is sent to it: the events queue for the name of every
-- event that has a handler, the notification queue for every notification's, the commands queue for the
-- application's name, the queries queue for its own name, and the reply queue, on the reply exchange,
-- for its own name.
pub topology-Serves :
    (cfg : Config) (a : App)
    → All (λ l. IsDeclared l.1 (topology cfg a)) (listeners cfg a)
      × ((n : String)
          → In n a.event_names
          → In (binding (events_queue cfg) cfg.domain_events_exchange n) (topology cfg a))
      × ((n : String)
          → is_empty a.notification_queue ≡ false
          → In n a.notification_names
          → In (binding a.notification_queue cfg.domain_events_exchange n) (topology cfg a))
      × (is_none_left a.command_names ≡ false
          → In (binding cfg.app_name cfg.direct_messages_exchange cfg.app_name) (topology cfg a))
      × (is_none_left a.query_names ≡ false
          → In
              (binding (queries_queue cfg) cfg.direct_messages_exchange (queries_queue cfg))
              (topology cfg a))
      × In (binding a.reply_queue cfg.global_reply_exchange a.reply_queue) (topology cfg a)
topology-Serves cfg a = (
  listeners-Serves cfg a,
  event-bound cfg a,
  notification-bound cfg a,
  command-bound cfg a,
  query-bound cfg a,
  reply-bound cfg a,
)
