-- ===== src/Rabbit/Registry.antt =====
-- internal/rabbit/registry.go: handlers by name, wildcard resolution and its cache.
-- A handler is an `Option`: `none` is Go's nil function. `range` visits a map in an order that the
-- runtime chooses, so the operations that call `keysOf` take the list of keys that it returned.
pub mod Cache
pub mod Lookup
mod Samples
use reactive_commons_go.Base.{
  String, Bool, true, false, List, [], ◌∷◌, Option, none, some, ◌==◌, if◌then◌else◌, is_empty,
}
use reactive_commons_go.Base.Dict.{Dict, lookup, insert, keys, index}
use reactive_commons_go.Async.{Result, ok, err, duplicate_handler, wildcard_not_supported}
use reactive_commons_go.Handlers.{handler_of}
use reactive_commons_go.Matcher.{has_wildcard, candidates, most_specific}

-- The handlers of one kind with their resolution cache; the nil map is `none`.
pub record Table (H : Type 0) : Type 0 where
  pub handlers : Dict (Option H)
  pub cache : Option (Dict String)

pub record HandlerRegistry (E C Q N : Type 0) : Type 0 where
  pub events : Table E
  pub commands : Table C
  pub queries : Dict (Option Q)
  pub notifications : Table N

-- `resolvePattern`; `visited` is what `keysOf` returned.
unfoldable pub resolve_pattern : String → List String → String
unfolding candidates most_specific
resolve_pattern name visited = most_specific (candidates name visited)

-- `pat, hit := cache[name]`; a nil map has no entry.
abbrev pub cached : String → Option (Dict String) → Option String
cached name none = none
cached name (some c) = lookup name c

-- `if cache == nil { cache = make(…) }; cache[name] = pat`
abbrev pub remember : String → String → Option (Dict String) → Option (Dict String)
remember name pat none = some (insert name pat [])
remember name pat (some c) = some (insert name pat c)

module _ {H : Type 0} where
  unfoldable pub empty_table : Table H
  empty_table = record { handlers = []; cache = none }

  -- The body that `ListenEvent`, `ListenCommand` and `ListenNotification` share.
  unfoldable pub listen : String → Option H → Table H → Result (Table H)
  unfolding lookup insert
  listen name h t = elim (lookup name t.handlers) [
    | some _ ↦ err (duplicate_handler name)
    | none ↦ ok (record { handlers = insert name h t.handlers; cache = none })
  ]

  -- The part of a lookup under the read lock; `none` means that it goes on to the write lock.
  unfoldable pub read_phase : Table H → String → Option (Option H)
  unfolding lookup
  read_phase t name = elim (lookup name t.handlers) [
    | some h ↦ some h
    | none ↦ elim (cached name t.cache) [
      | some pat ↦ some (handler_of t.handlers pat)
      | none ↦ none
    ]
  ]

  -- The part under the write lock: both checks again, then the resolution, which is cached.
  unfoldable pub write_phase : Table H → List String → String → Table H × Option H
  unfolding lookup insert resolve_pattern
  write_phase t visited name = elim (lookup name t.handlers) [
    | some h ↦ (t, h)
    | none ↦ elim (cached name t.cache) [
      | some pat ↦ (t, handler_of t.handlers pat)
      | none ↦
          let pat = resolve_pattern name visited in
          (record t { cache = remember name pat t.cache }, handler_of t.handlers pat)
    ]
  ]

  -- `EventHandler`, `CommandHandler` and `NotificationHandler`. The lock is let go between the two
  -- phases: `t` is the table that the first one reads, `t'` the table that the second one finds.
  unfoldable pub find_handler : Table H → Table H → List String → String → Table H × Option H
  unfolding read_phase write_phase
  find_handler t t' visited name = elim (read_phase t name) [
    | some h ↦ (t', h)
    | none ↦ write_phase t' visited name
  ]

module _ {E C Q N : Type 0} where
  unfoldable pub new_handler_registry : HandlerRegistry E C Q N
  unfolding empty_table
  new_handler_registry = record {
    events = empty_table;
    commands = empty_table;
    queries = [];
    notifications = empty_table;
  }

  abbrev with_events : HandlerRegistry E C Q N → Result (Table E) → Result (HandlerRegistry E C Q N)
  with_events r (ok t) = ok (record r { events = t })
  with_events r (err e) = err e

  abbrev with_commands :
      HandlerRegistry E C Q N → Result (Table C) → Result (HandlerRegistry E C Q N)
  with_commands r (ok t) = ok (record r { commands = t })
  with_commands r (err e) = err e

  abbrev with_notifications :
      HandlerRegistry E C Q N → Result (Table N) → Result (HandlerRegistry E C Q N)
  with_notifications r (ok t) = ok (record r { notifications = t })
  with_notifications r (err e) = err e

  unfoldable pub listen_event :
      String → Option E → HandlerRegistry E C Q N → Result (HandlerRegistry E C Q N)
  unfolding listen
  listen_event name h r = with_events r (listen name h r.events)

  unfoldable pub listen_command :
      String → Option C → HandlerRegistry E C Q N → Result (HandlerRegistry E C Q N)
  unfolding listen
  listen_command name h r = with_commands r (listen name h r.commands)

  unfoldable pub listen_notification :
      String → Option N → HandlerRegistry E C Q N → Result (HandlerRegistry E C Q N)
  unfolding listen
  listen_notification name h r = with_notifications r (listen name h r.notifications)

  unfoldable pub serve_query :
      String → Option Q → HandlerRegistry E C Q N → Result (HandlerRegistry E C Q N)
  unfolding has_wildcard lookup insert
  serve_query name h r =
      if has_wildcard name
      then err (wildcard_not_supported name)
      else elim (lookup name r.queries) [
        | some _ ↦ err (duplicate_handler name)
        | none ↦ ok (record r { queries = insert name h r.queries })
      ]

  unfoldable pub query_handler : HandlerRegistry E C Q N → String → Option Q
  unfolding lookup
  query_handler r name = index name r.queries

  unfoldable pub event_names : HandlerRegistry E C Q N → List String
  unfolding keys
  event_names r = keys r.events.handlers

  unfoldable pub command_names : HandlerRegistry E C Q N → List String
  unfolding keys
  command_names r = keys r.commands.handlers

  unfoldable pub query_names : HandlerRegistry E C Q N → List String
  unfolding keys
  query_names r = keys r.queries

  unfoldable pub notification_names : HandlerRegistry E C Q N → List String
  unfolding keys
  notification_names r = keys r.notifications.handlers
