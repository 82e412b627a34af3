-- ===== src/Kafka/Registry/Lifecycle.antt =====
-- When internal/kafka/registry.go takes a registration, and what its lookups return.
use reactive_commons_go.Base.{
  subst, String, ◌≡◌, ◌≢◌, ◌⊎◌, inl, inr, false, List, arith, Option, none, some, ◌==◌,
  if◌then◌else◌, Option-cases,
}
use reactive_commons_go.Base.Dict.{lookup, insert, lookup-insert, lookup-copy}
use reactive_commons_go.Async.{
  ok, err, registration_closed, duplicate_handler, wildcard_not_supported,
}
use reactive_commons_go.Matcher.{resolve, has_wildcard}
use reactive_commons_go.Handlers.{Visits, Resolves, choice-Resolves, resolve-IsChoice, handler_of}
use reactive_commons_go.Kafka.Registry.{
  HandlerRegistry, mark_started, listen_event, listen_notification, listen_command, serve_query,
  command_handler, query_handler, snapshot_event_handlers,
}

module _ {E C Q N : Type 0} where
  -- After `markStarted` every registration is refused, and none changes the registry: with
  -- ErrRegistrationClosed, or with ErrWildcardNotSupported for a query name that has a wildcard.
  pub mark_started_closes :
      (r : HandlerRegistry E C Q N) (name : String) (e : Option E) (c : Option C) (q : Option Q)
      (n : Option N)
      → (listen_event name e (mark_started r) ≡ err registration_closed)
        × (listen_command name c (mark_started r) ≡ err registration_closed)
        × (listen_notification name n (mark_started r) ≡ err registration_closed)
        × (serve_query name q (mark_started r)
            ≡ err (if has_wildcard name then wildcard_not_supported name else registration_closed))
  unfolding mark_started listen_event listen_command listen_notification serve_query
  mark_started_closes r name e c q n = ground arith

  -- Before it, an event handler is taken exactly when its name is free, and is then the one that the
  -- snapshot gives for the name; the entries of the other names stay.
  pub listen_event_lem :
      (r : HandlerRegistry E C Q N) (name : String) (h : Option E)
      → r.started ≡ false
      → ((lookup name r.event_handlers ≢ none)
          × (listen_event name h r ≡ err (duplicate_handler name)))
        ⊎ ((lookup name r.event_handlers ≡ none)
            × ((r' : HandlerRegistry E C Q N) × (listen_event name h r ≡ ok r')
                × ((j : String)
                    → lookup j (snapshot_event_handlers r')
                      ≡ (if name == j then some h else lookup j (snapshot_event_handlers r)))))
  unfolding listen_event snapshot_event_handlers
  listen_event_lem r name h open_ = elim (Option-cases (lookup name r.event_handlers)) [
    | inr (g, taken) ↦ inl (ground arith, ground arith)
    | inl free ↦ inr (
      free,
      (
        record r { event_handlers = insert name h r.event_handlers },
        ground arith,
        λ j. ground (
          arith,
          lookup-copy j (insert name h r.event_handlers),
          lookup-copy j r.event_handlers,
          lookup-insert name j h r.event_handlers,
        ),
      ),
    )
  ]

  module _ (r : HandlerRegistry E C Q N) (visited : List String) (name : String) where
    command_handler-exact :
        {h : Option C}
        → lookup name r.command_handlers ≡ some h
        → h ≡ command_handler r visited name
    unfolding command_handler
    command_handler-exact e = ground arith

    command_handler-pattern :
        lookup name r.command_handlers ≡ none
        → handler_of r.command_handlers (resolve name visited) ≡ command_handler r visited name
    unfolding command_handler
    command_handler-pattern e = ground arith

    -- A command goes to the handler of its exact name, or to that of a pattern that matches it, or
    -- to none when no pattern does, in whatever order the keys are visited.
    pub command_handler-Resolves :
        Visits r.command_handlers visited
        → Resolves r.command_handlers name (command_handler r visited name)
    command_handler-Resolves v = elim (Option-cases (lookup name r.command_handlers)) [
      | inr (h, e) ↦ subst (Resolves r.command_handlers name) (command_handler-exact e) (inl e)
      | inl absent ↦ subst (Resolves r.command_handlers name) (command_handler-pattern absent) (
          choice-Resolves r.command_handlers name _ absent
            (resolve-IsChoice r.command_handlers visited name v))
    ]

  -- Queries resolve by exact name alone, and no query name has a wildcard: a registration that
  -- succeeds makes its handler the one of its name.
  pub query_handler-serve_query :
      (r r' : HandlerRegistry E C Q N) (name : String) (h : Option Q)
      → serve_query name h r ≡ ok r'
      → (has_wildcard name ≡ false)
        × ((j : String) → query_handler r' j ≡ (if name == j then h else query_handler r j))
  unfolding serve_query query_handler
  query_handler-serve_query r r' name h e =
      (ground arith, λ j. ground (arith, lookup-insert name j h r.query_handlers))
