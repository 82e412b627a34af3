-- ===== src/Rabbit/Dispatch.antt =====
-- internal/rabbit/dispatch.go and the listeners beside it: one delivery, from its body to how it is
-- settled. What a delivery causes is a list of effects in their order; a user's handler is a function
-- to how it ends. A body is the JSON value it holds, `none` where it is not JSON.
pub mod Settlement
mod Samples
use reactive_commons_go.Base.{
  ℕ, String, Bool, true, false, not, ◌&&◌, List, [], ◌∷◌, ◌++◌, Option, none, some, if◌then◌else◌,
}
use reactive_commons_go.Base.Dict.{Dict, lookup}
use reactive_commons_go.Async.{DomainEvent, Command, AsyncQuery, Notification, From, RawEnvelope}
use reactive_commons_go.Async.Headers.{correlation_id, reply_id}
use reactive_commons_go.Async.JsonValue.{Json}
use reactive_commons_go.Async.Wire.{unmarshal_envelope}
use reactive_commons_go.Rabbit.Headers.{HeaderValue, header_string}
use reactive_commons_go.Rabbit.Registry.{Table, find_handler}

pub record Delivery : Type 0 where
  pub body : Option Json
  pub headers : Dict HeaderValue

pub data Effect : Type 0 where
  acks : Effect
  nacks : Bool → Effect
  replies : From → Option Json → Effect
  replies_error : From → String → Effect

-- How a handler ends; a query handler's result is `none` where it is nil.
pub data Outcome (R : Type 0) : Type 0 where
  returns : R → Outcome R
  fails : String → Outcome R
  panics : Outcome R

-- The state that a call leaves, its effects, and whether it ended with a panic.
pub record Run (S : Type 0) : Type 0 where
  pub state : S
  pub effects : List Effect
  pub panicked : Bool

abbrev done : {S : Type 0} → S → List Effect → Run S
done s effects = record { state = s; effects = effects; panicked = false }

-- `nack` is nil where `nackable` is false.
abbrev pub nack : Bool → Bool → List Effect
nack nackable requeue = if nackable then nacks requeue ∷ [] else []

module _ {S : Type 0} where
  unfoldable pub dispatch_envelope :
      (String → String → Bool)
      → Bool
      → Delivery
      → Bool
      → (S → RawEnvelope → Run S)
      → S
      → S × List Effect
  unfolding unmarshal_envelope
  dispatch_envelope equal_fold requeue_on_failure d nackable handle s = elim d.body [
    | none ↦ (s, nack nackable false)
    | some v ↦ elim (unmarshal_envelope equal_fold v) [
      | none ↦ (s, nack nackable false)
      | some env ↦
          let r = handle s env in
          (r.state, r.effects ++ (if r.panicked then nack nackable requeue_on_failure else []))
    ]
  ]

unfoldable pub run_envelope_handler :
    {M : Type 0} → Bool → Option (M → Outcome (Unit {0})) → M → List Effect × Bool
run_envelope_handler requeue_on_failure none msg = (acks ∷ [], false)
run_envelope_handler requeue_on_failure (some handler) msg = elim (handler msg) [
  | returns _ ↦ (acks ∷ [], false)
  | fails _ ↦ (nacks requeue_on_failure ∷ [], false)
  | panics ↦ ([], true)
]

-- The registry's table as a delivery finds it, and what another goroutine makes of it between the two
-- locks of a lookup, with the keys that a `range` visits.
pub record Tables (H : Type 0) : Type 0 where
  pub table : Table H
  pub between : Table H → Table H
  pub visited : List String

abbrev find : {H : Type 0} → Tables H → Table H → String → Table H × Option H
find ts t name = find_handler t (ts.between t) ts.visited name

abbrev pub EventHandler : Type 0
EventHandler = DomainEvent (Option Json) → Outcome (Unit {0})

abbrev pub CommandHandler : Type 0
CommandHandler = Command (Option Json) → Outcome (Unit {0})

abbrev pub NotificationHandler : Type 0
NotificationHandler = Notification (Option Json) → Outcome (Unit {0})

abbrev pub QueryHandler : Type 0
QueryHandler = AsyncQuery (Option Json) → From → Outcome (Option Json)

-- The closures that the listeners pass as `handle`.
unfoldable pub handle_event :
    Bool → Tables EventHandler → Table EventHandler → RawEnvelope → Run (Table EventHandler)
unfolding run_envelope_handler find_handler
handle_event requeue_on_failure ts t env =
    let (t', handler) = find ts t env.name in
    let (effects, panicked) =
      run_envelope_handler requeue_on_failure handler
        (record { name = env.name; event_id = env.event_id; payload = env.payload }) in
    record { state = t'; effects = effects; panicked = panicked }

unfoldable pub handle_command :
    Bool → Tables CommandHandler → Table CommandHandler → RawEnvelope → Run (Table CommandHandler)
unfolding run_envelope_handler find_handler
handle_command requeue_on_failure ts t env =
    let (t', handler) = find ts t env.name in
    let (effects, panicked) =
      run_envelope_handler requeue_on_failure handler
        (record { name = env.name; command_id = env.command_id; payload = env.payload }) in
    record { state = t'; effects = effects; panicked = panicked }

abbrev pub from_of : Delivery → From
from_of d = record {
  correlation_id = header_string d.headers correlation_id;
  reply_id = header_string d.headers reply_id;
}

-- What follows a query handler's end.
unfoldable pub answer : From → Outcome (Option Json) → Run (Unit {0})
answer from (returns result) = done tt (replies from result ∷ acks ∷ [])
answer from (fails e) = done tt (replies_error from e ∷ acks ∷ [])
answer from panics = record { state = tt; effects = []; panicked = true }

unfoldable pub run_query_handler :
    Option QueryHandler → AsyncQuery (Option Json) → From → Run (Unit {0})
unfolding answer
run_query_handler none query from = done tt (acks ∷ [])
run_query_handler (some handler) query from = answer from (handler query from)

-- `handlers` is `QueryHandler` of the registry.
unfoldable pub handle_query :
    (String → Option QueryHandler) → Delivery → Unit {0} → RawEnvelope → Run (Unit {0})
unfolding header_string run_query_handler
handle_query handlers d s env =
    run_query_handler (handlers env.resource)
      (record { resource = env.resource; query_data = env.query_data }) (from_of d)

unfoldable pub handle_notification :
    Tables NotificationHandler
    → Table NotificationHandler
    → RawEnvelope
    → Run (Table NotificationHandler)
unfolding find_handler
handle_notification ts t env =
    let (t', handler) = find ts t env.name in
    elim handler [
      | none ↦ done t' []
      | some h ↦
          elim (h (record { name = env.name; event_id = env.event_id; payload = env.payload })) [
            | returns _ ↦ done t' []
            | fails _ ↦ done t' []
            | panics ↦ record { state = t'; effects = []; panicked = true }
          ]
    ]

module _ (equal_fold : String → String → Bool) (with_dlq_retry : Bool) where
  unfoldable pub event_dispatch : Tables EventHandler → Delivery → Table EventHandler × List Effect
  unfolding dispatch_envelope handle_event
  event_dispatch ts d =
      dispatch_envelope equal_fold (not with_dlq_retry) d true
        (handle_event (not with_dlq_retry) ts) ts.table

  unfoldable pub command_dispatch :
      Tables CommandHandler → Delivery → Table CommandHandler × List Effect
  unfolding dispatch_envelope handle_command
  command_dispatch ts d =
      dispatch_envelope equal_fold (not with_dlq_retry) d true
        (handle_command (not with_dlq_retry) ts) ts.table

  unfoldable pub query_dispatch : (String → Option QueryHandler) → Delivery → List Effect
  unfolding dispatch_envelope handle_query
  query_dispatch handlers d =
      (dispatch_envelope equal_fold (not with_dlq_retry) d true (handle_query handlers d) tt).1

unfoldable pub notification_dispatch :
    (String → String → Bool)
    → Tables NotificationHandler
    → Delivery
    → Table NotificationHandler × List Effect
unfolding dispatch_envelope handle_notification
notification_dispatch equal_fold ts d =
    dispatch_envelope equal_fold false d false (handle_notification ts) ts.table
