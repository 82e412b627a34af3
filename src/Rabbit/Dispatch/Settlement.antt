-- ===== src/Rabbit/Dispatch/Settlement.antt =====
-- internal/rabbit/dispatch.go and the listeners: a delivery is settled once, and how.
use reactive_commons_go.Base.{
  ◌≡◌, ◌⊎◌, inl, inr, refl, sym, ap, subst, String, Bool, true, false, not, List, [], ◌∷◌, ◌++◌,
  Option, none, some, if◌then◌else◌, arith,
}
use reactive_commons_go.Async.{DomainEvent, Command, AsyncQuery, From, RawEnvelope}
use reactive_commons_go.Async.JsonValue.{Json}
use reactive_commons_go.Async.Wire.{unmarshal_envelope}
use reactive_commons_go.Rabbit.Registry.{find_handler}
use reactive_commons_go.Rabbit.Dispatch.{
  Delivery, Effect, acks, nacks, replies, replies_error, Outcome, returns, fails, panics, Run, nack,
  dispatch_envelope, run_envelope_handler, Tables, EventHandler, CommandHandler, QueryHandler,
  NotificationHandler, event_dispatch, command_dispatch, query_dispatch, notification_dispatch,
  handle_event, handle_command, handle_query, handle_notification, from_of, answer,
  run_query_handler,
}

-- How the broker sees the delivery end.
pub settlements : List Effect → List Effect
settlements [] = []
settlements (acks ∷ es) = acks ∷ settlements es
settlements (nacks r ∷ es) = nacks r ∷ settlements es
settlements (replies f b ∷ es) = settlements es
settlements (replies_error f e ∷ es) = settlements es

-- What a body decodes to.
abbrev pub envelope_of : (String → String → Bool) → Delivery → Option RawEnvelope
envelope_of equal_fold d = elim d.body [ none ↦ none | some v ↦ unmarshal_envelope equal_fold v ]

-- The handler ends well.
pub Succeeds : {R : Type 0} → Outcome R → Type 0
Succeeds (returns _) = Unit {0}
Succeeds (fails _) = ⊥
Succeeds panics = ⊥

-- One settlement: an ack if `good`, else a nack, which requeues only if `requeue` allows it.
pub SettledOnce : Type 0 → Bool → List Effect → Type 0
SettledOnce Good requeue es =
    (Good × (settlements es ≡ acks ∷ [])) ⊎ ((Good → ⊥) × (settlements es ≡ nacks requeue ∷ []))

-- Nothing is registered for the message, or its handler succeeds.
pub IsHandled : {M R : Type 0} → Option (M → Outcome R) → M → Type 0
IsHandled none m = Unit {0}
IsHandled (some h) m = Succeeds (h m)

module _ {S : Type 0} (equal_fold : String → String → Bool) (requeue nackable : Bool) (d : Delivery)
    (handle : S → RawEnvelope → Run S) (s : S) where
  dispatch_envelope-refused :
      envelope_of equal_fold d ≡ none
      → dispatch_envelope equal_fold requeue d nackable handle s ≡ (s, nack nackable false)
  unfolding dispatch_envelope
  dispatch_envelope-refused e = refused d.body e
    where
      refused :
          (b : Option Json)
          → envelope_of equal_fold (record d { body = b }) ≡ none
          → dispatch_envelope equal_fold requeue (record d { body = b }) nackable handle s
            ≡ (s, nack nackable false)
      refused none e = refl
      refused (some v) e = rw (dispatch_envelope, e)

  dispatch_envelope-handled :
      (env : RawEnvelope)
      → envelope_of equal_fold d ≡ some env
      → dispatch_envelope equal_fold requeue d nackable handle s ≡ (
        (handle s env).state,
        (handle s env).effects ++ (if (handle s env).panicked then nack nackable requeue else []),
      )
  unfolding dispatch_envelope
  dispatch_envelope-handled env e = handled d.body e
    where
      handled :
          (b : Option Json)
          → envelope_of equal_fold (record d { body = b }) ≡ some env
          → dispatch_envelope equal_fold requeue (record d { body = b }) nackable handle s ≡ (
            (handle s env).state,
            (handle s env).effects
                ++ (if (handle s env).panicked then nack nackable requeue else []),
          )
      handled none e = absurd (ground (arith, e))
      handled (some v) e = rw (dispatch_envelope, e)

run_envelope_handler-SettledOnce :
    {M : Type 0} (requeue : Bool) (handler : Option (M → Outcome (Unit {0}))) (msg : M)
    → SettledOnce (IsHandled handler msg) requeue (
        (run_envelope_handler requeue handler msg).0
        ++ (if (run_envelope_handler requeue handler msg).1 then nack true requeue else []))
unfolding run_envelope_handler SettledOnce IsHandled settlements Succeeds
run_envelope_handler-SettledOnce requeue none msg = inl (tt, refl)
run_envelope_handler-SettledOnce requeue (some h) msg = ends (h msg)
  where
    run : Outcome (Unit {0}) → List Effect × Bool
    run o = elim o [
      | returns _ ↦ (acks ∷ [], false)
      | fails _ ↦ (nacks requeue ∷ [], false)
      | panics ↦ ([], true)
    ]

    ends :
        (o : Outcome (Unit {0}))
        → SettledOnce
            (Succeeds o)
            requeue
            ((run o).0 ++ (if (run o).1 then nack true requeue else []))
    ends (returns _) = inl (tt, refl)
    ends (fails _) = inr ((λ x. x), refl)
    ends panics = inr ((λ x. x), refl)

-- An event is settled exactly once: with an ack if nothing is registered for its name or the handler
-- succeeds; with a nack if the handler fails or panics, back to the queue only without the DLQ retry;
-- and with a nack that does not requeue if its body is not an envelope.
pub event_dispatch-SettledOnce :
    (equal_fold : String → String → Bool) (with_dlq_retry : Bool) (ts : Tables EventHandler)
    (d : Delivery)
    → ((envelope_of equal_fold d ≡ none)
        → settlements (event_dispatch equal_fold with_dlq_retry ts d).1 ≡ nacks false ∷ [])
      × ((env : RawEnvelope)
          → envelope_of equal_fold d ≡ some env
          → SettledOnce
              (IsHandled
                (find_handler ts.table (ts.between ts.table) ts.visited env.name).1
                (record { name = env.name; event_id = env.event_id; payload = env.payload }))
              (not with_dlq_retry)
              (event_dispatch equal_fold with_dlq_retry ts d).1)
unfolding event_dispatch settlements handle_event
event_dispatch-SettledOnce equal_fold with_dlq_retry ts d =
    let requeue = not with_dlq_retry in
    (
      λ e.
          ap (λ r. settlements r.1)
            (dispatch_envelope-refused equal_fold requeue true d (handle_event requeue ts) ts.table
              e),
      λ env e.
          let handler = (find_handler ts.table (ts.between ts.table) ts.visited env.name).1 in
          let msg : DomainEvent (Option Json) = record {
            name = env.name;
            event_id = env.event_id;
            payload = env.payload;
          } in
          subst (λ r. SettledOnce (IsHandled handler msg) requeue r.1)
            (sym (
              dispatch_envelope-handled equal_fold requeue true d (handle_event requeue ts) ts.table
                env e))
            (run_envelope_handler-SettledOnce requeue handler msg),
    )

-- A command is settled exactly once, by the same rules as an event.
pub command_dispatch-SettledOnce :
    (equal_fold : String → String → Bool) (with_dlq_retry : Bool) (ts : Tables CommandHandler)
    (d : Delivery)
    → ((envelope_of equal_fold d ≡ none)
        → settlements (command_dispatch equal_fold with_dlq_retry ts d).1 ≡ nacks false ∷ [])
      × ((env : RawEnvelope)
          → envelope_of equal_fold d ≡ some env
          → SettledOnce
              (IsHandled
                (find_handler ts.table (ts.between ts.table) ts.visited env.name).1
                (record { name = env.name; command_id = env.command_id; payload = env.payload }))
              (not with_dlq_retry)
              (command_dispatch equal_fold with_dlq_retry ts d).1)
unfolding command_dispatch settlements handle_command
command_dispatch-SettledOnce equal_fold with_dlq_retry ts d =
    let requeue = not with_dlq_retry in
    (
      λ e.
          ap (λ r. settlements r.1)
            (dispatch_envelope-refused equal_fold requeue true d (handle_command requeue ts)
              ts.table e),
      λ env e.
          let handler = (find_handler ts.table (ts.between ts.table) ts.visited env.name).1 in
          let msg : Command (Option Json) = record {
            name = env.name;
            command_id = env.command_id;
            payload = env.payload;
          } in
          subst (λ r. SettledOnce (IsHandled handler msg) requeue r.1)
            (sym (
              dispatch_envelope-handled equal_fold requeue true d (handle_command requeue ts)
                ts.table env e))
            (run_envelope_handler-SettledOnce requeue handler msg),
    )

-- What a query delivery with an envelope must cause: nothing but an ack without a handler, one reply
-- to the caller and then an ack when the handler ends, and one nack when it panics.
pub Answered : Option QueryHandler → AsyncQuery (Option Json) → From → Bool → List Effect → Type 0
Answered none q f requeue es = es ≡ acks ∷ []
Answered (some h) q f requeue es =
    ((b : Option Json) × (h q f ≡ returns b) × (es ≡ replies f b ∷ acks ∷ []))
    ⊎ ((e : String) × (h q f ≡ fails e) × (es ≡ replies_error f e ∷ acks ∷ []))
    ⊎ ((h q f ≡ panics) × (es ≡ nacks requeue ∷ []))

run_query_handler-Answered :
    (handler : Option QueryHandler) (q : AsyncQuery (Option Json)) (f : From) (requeue : Bool)
    → Answered handler q f requeue (
        (run_query_handler handler q f).effects
        ++ (if (run_query_handler handler q f).panicked then nack true requeue else []))
unfolding run_query_handler answer Answered
run_query_handler-Answered none q f requeue = refl
run_query_handler-Answered (some h) q f requeue = answered (h q f) refl
  where
    answered :
        (o : Outcome (Option Json))
        → h q f ≡ o
        → ((b : Option Json) × (h q f ≡ returns b)
            × ((answer f o).effects ++ (if (answer f o).panicked then nack true requeue else [])
                ≡ replies f b ∷ acks ∷ []))
          ⊎ ((e : String) × (h q f ≡ fails e)
              × ((answer f o).effects ++ (if (answer f o).panicked then nack true requeue else [])
                  ≡ replies_error f e ∷ acks ∷ []))
          ⊎ ((h q f ≡ panics)
              × ((answer f o).effects ++ (if (answer f o).panicked then nack true requeue else [])
                  ≡ nacks requeue ∷ []))
    answered (returns b) e = inl (b, e, refl)
    answered (fails m) e = inr (inl (m, e, refl))
    answered panics e = inr (inr (e, refl))

-- A query delivery is settled exactly once and its caller is answered at most once, before the ack:
-- with the handler's result, or with its error, which is never redelivered; only a panic, or a body
-- that is not an envelope, is nacked.
pub query_dispatch-Answered :
    (equal_fold : String → String → Bool) (with_dlq_retry : Bool)
    (handlers : String → Option QueryHandler) (d : Delivery)
    → ((envelope_of equal_fold d ≡ none)
        → query_dispatch equal_fold with_dlq_retry handlers d ≡ nacks false ∷ [])
      × ((env : RawEnvelope)
          → envelope_of equal_fold d ≡ some env
          → Answered
              (handlers env.resource)
              (record { resource = env.resource; query_data = env.query_data })
              (from_of d)
              (not with_dlq_retry)
              (query_dispatch equal_fold with_dlq_retry handlers d))
unfolding query_dispatch handle_query
query_dispatch-Answered equal_fold with_dlq_retry handlers d =
    let requeue = not with_dlq_retry in
    (
      λ e.
          ap (λ r. r.1)
            (dispatch_envelope-refused equal_fold requeue true d (handle_query handlers d) tt e),
      λ env e.
          subst
            (λ r.
              Answered (handlers env.resource)
                (record { resource = env.resource; query_data = env.query_data }) (from_of d)
                requeue r.1)
            (sym (
              dispatch_envelope-handled equal_fold requeue true d (handle_query handlers d) tt env
                e))
            (run_query_handler-Answered (handlers env.resource)
              (record { resource = env.resource; query_data = env.query_data }) (from_of d)
              requeue),
    )

-- A notification is never settled by the listener, which consumes with auto-ack, however its body or
-- its handler fails.
pub notification_dispatch-unsettled :
    (equal_fold : String → String → Bool) (ts : Tables NotificationHandler) (d : Delivery)
    → (notification_dispatch equal_fold ts d).1 ≡ []
unfolding notification_dispatch dispatch_envelope handle_notification
notification_dispatch-unsettled equal_fold ts d = ground arith
