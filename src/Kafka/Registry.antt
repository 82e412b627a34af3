-- ===== src/Kafka/Registry.antt =====
-- internal/kafka/registry.go: handlers by name, open to registration until `markStarted`.
-- A handler is an `Option`: `none` is Go's nil function. A list `visited` is what `keysOf` returned.
pub mod Lifecycle
mod Samples
use reactive_commons_go.Base.{
  String, Bool, true, false, List, [], ◌∷◌, Option, none, some, if◌then◌else◌, is_empty,
}
use reactive_commons_go.Base.Dict.{Dict, lookup, insert, copy, index}
use reactive_commons_go.Async.{
  Result, ok, err, duplicate_handler, wildcard_not_supported, registration_closed,
}
use reactive_commons_go.Matcher.{has_wildcard, resolve}

pub record HandlerRegistry (E C Q N : Type 0) : Type 0 where
  pub started : Bool
  pub event_handlers : Dict (Option E)
  pub notification_handlers : Dict (Option N)
  pub command_handlers : Dict (Option C)
  pub query_handlers : Dict (Option Q)

module _ {E C Q N : Type 0} where
  unfoldable pub new_handler_registry : HandlerRegistry E C Q N
  new_handler_registry = record {
    started = false;
    event_handlers = [];
    notification_handlers = [];
    command_handlers = [];
    query_handlers = [];
  }

  unfoldable pub mark_started : HandlerRegistry E C Q N → HandlerRegistry E C Q N
  mark_started r = record r { started = true }

  unfoldable pub listen_event :
      String → Option E → HandlerRegistry E C Q N → Result (HandlerRegistry E C Q N)
  unfolding lookup insert
  listen_event event_name handler r =
      if r.started then err registration_closed else elim (lookup event_name r.event_handlers) [
        | some _ ↦ err (duplicate_handler event_name)
        | none ↦ ok (record r { event_handlers = insert event_name handler r.event_handlers })
      ]

  unfoldable pub listen_notification :
      String → Option N → HandlerRegistry E C Q N → Result (HandlerRegistry E C Q N)
  unfolding lookup insert
  listen_notification name handler r =
      if r.started then err registration_closed else elim (lookup name r.notification_handlers) [
        | some _ ↦ err (duplicate_handler name)
        | none ↦
            ok (record r { notification_handlers = insert name handler r.notification_handlers })
      ]

  unfoldable pub listen_command :
      String → Option C → HandlerRegistry E C Q N → Result (HandlerRegistry E C Q N)
  unfolding lookup insert
  listen_command name handler r =
      if r.started then err registration_closed else elim (lookup name r.command_handlers) [
        | some _ ↦ err (duplicate_handler name)
        | none ↦ ok (record r { command_handlers = insert name handler r.command_handlers })
      ]

  unfoldable pub serve_query :
      String → Option Q → HandlerRegistry E C Q N → Result (HandlerRegistry E C Q N)
  unfolding lookup insert has_wildcard
  serve_query name handler r =
      if has_wildcard name
      then err (wildcard_not_supported name)
      else if r.started
      then err registration_closed
      else elim (lookup name r.query_handlers) [
        | some _ ↦ err (duplicate_handler name)
        | none ↦ ok (record r { query_handlers = insert name handler r.query_handlers })
      ]

  unfoldable pub command_handler : HandlerRegistry E C Q N → List String → String → Option C
  unfolding lookup resolve
  command_handler r visited name = elim (lookup name r.command_handlers) [
    | some h ↦ h
    | none ↦
        let pat = resolve name visited in
        if is_empty pat then none else index pat r.command_handlers
  ]

  unfoldable pub query_handler : HandlerRegistry E C Q N → String → Option Q
  unfolding lookup
  query_handler r name = index name r.query_handlers

  unfoldable pub snapshot_event_handlers : HandlerRegistry E C Q N → Dict (Option E)
  unfolding copy
  snapshot_event_handlers r = copy r.event_handlers

  unfoldable pub snapshot_notification_handlers : HandlerRegistry E C Q N → Dict (Option N)
  unfolding copy
  snapshot_notification_handlers r = copy r.notification_handlers

  unfoldable pub snapshot_command_handlers : HandlerRegistry E C Q N → Dict (Option C)
  unfolding copy
  snapshot_command_handlers r = copy r.command_handlers

  unfoldable pub snapshot_query_handlers : HandlerRegistry E C Q N → Dict (Option Q)
  unfolding copy
  snapshot_query_handlers r = copy r.query_handlers
