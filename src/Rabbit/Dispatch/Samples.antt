-- ===== src/Rabbit/Dispatch/Samples.antt =====
-- Runs of the listeners of internal/rabbit on concrete deliveries.
use reactive_commons_go.Base.{
  String, ◌≡◌, refl, Bool, true, false, not, [], ◌∷◌, Option, none, some, String_discrete,
}
use reactive_commons_go.Base.Dict.{lookup}
use reactive_commons_go.Async.{RawEnvelope}
use reactive_commons_go.Async.JsonValue.{text, object, member, no_members}
use reactive_commons_go.Async.Wire.{unmarshal_envelope}
use reactive_commons_go.Rabbit.Registry.{find_handler, read_phase}
use reactive_commons_go.Rabbit.Dispatch.{
  Delivery, nacks, returns, fails, panics, Tables, EventHandler, CommandHandler, QueryHandler,
  NotificationHandler, event_dispatch, query_dispatch, from_of, dispatch_envelope, handle_event,
  run_envelope_handler,
}
use reactive_commons_go.Rabbit.Dispatch.Settlement.{
  settlements, envelope_of, IsHandled, SettledOnce, Answered, event_dispatch-SettledOnce,
  query_dispatch-Answered,
}

abbrev exact : String → String → Bool
exact _ _ = false

abbrev delivery : Delivery
delivery = record {
  body = some (object (member "name" (text "order.created") no_members));
  headers = [];
}

abbrev failing : EventHandler
failing _ = fails "no stock"

abbrev events : Tables EventHandler
events = record {
  table = record { handlers = ("order.created", some failing) ∷ []; cache = none };
  between = λ t. t;
  visited = "order.created" ∷ [];
}

-- A failing handler puts the message back without the DLQ retry, and not with it.
requeues : (event_dispatch exact false events delivery).1 ≡ nacks true ∷ []
unfolding event_dispatch dispatch_envelope handle_event run_envelope_handler find_handler read_phase
    lookup unmarshal_envelope String_discrete
requeues = refl

dead_letters : (event_dispatch exact true events delivery).1 ≡ nacks false ∷ []
unfolding event_dispatch dispatch_envelope handle_event run_envelope_handler find_handler read_phase
    lookup unmarshal_envelope String_discrete
dead_letters = refl

event_dispatch-SettledOnce_example :
    ((envelope_of exact delivery ≡ none)
      → settlements (event_dispatch exact true events delivery).1 ≡ nacks false ∷ [])
    × ((env : RawEnvelope)
        → envelope_of exact delivery ≡ some env
        → SettledOnce
            (IsHandled
              (find_handler events.table (events.between events.table) events.visited env.name).1
              (record { name = env.name; event_id = env.event_id; payload = env.payload }))
            (not true)
            (event_dispatch exact true events delivery).1)
event_dispatch-SettledOnce_example = event_dispatch-SettledOnce exact true events delivery

abbrev commands : Tables CommandHandler
commands = record {
  table = record { handlers = ("order.created", some (λ _. panics)) ∷ []; cache = none };
  between = λ t. t;
  visited = "order.created" ∷ [];
}

abbrev queries : String → Option QueryHandler
queries _ = some (λ q f. returns (some (text "42")))

query_dispatch-Answered_example :
    ((envelope_of exact delivery ≡ none)
      → query_dispatch exact false queries delivery ≡ nacks false ∷ [])
    × ((env : RawEnvelope)
        → envelope_of exact delivery ≡ some env
        → Answered
            (queries env.resource)
            (record { resource = env.resource; query_data = env.query_data })
            (from_of delivery)
            (not false)
            (query_dispatch exact false queries delivery))
query_dispatch-Answered_example = query_dispatch-Answered exact false queries delivery

abbrev notifications : Tables NotificationHandler
notifications = record {
  table = record { handlers = ("order.created", some (λ _. panics)) ∷ []; cache = none };
  between = λ t. t;
  visited = "order.created" ∷ [];
}
