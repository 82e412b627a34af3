-- ===== src/Envelope/RoundTrip.antt =====
-- internal/envelope/codec.go: what one side marshals the other side decodes.
use reactive_commons_go.Base.{String, Bool, some, ◌≡◌, ◌≢◌, arith, refl, String_discrete}
use reactive_commons_go.Async.{DomainEvent, Command, AsyncQuery, Notification}
use reactive_commons_go.Async.JsonValue.{Json, null}
use reactive_commons_go.Async.Wire.{
  unmarshal_envelope, empty_envelope, marshal_event, marshal_command, marshal_query,
  marshal_notification,
}
use reactive_commons_go.Envelope.{unmarshal_raw, decoded, refused, missing_fields}

-- The envelope that a message of each kind is read back as has the message's fields and nothing else,
-- whatever the case folding of other keys is.
pub unmarshal-marshal :
    (equal_fold : String → String → Bool) (e : DomainEvent Json) (c : Command Json)
    (q : AsyncQuery Json) (n : Notification Json)
    → (unmarshal_envelope equal_fold (marshal_event e)
        ≡ some (record empty_envelope {
          name = e.name;
          event_id = e.event_id;
          payload = some e.payload;
        }))
      × (unmarshal_envelope equal_fold (marshal_command c)
          ≡ some (record empty_envelope {
            name = c.name;
            command_id = c.command_id;
            payload = some c.payload;
          }))
      × (unmarshal_envelope equal_fold (marshal_query q)
          ≡ some (record empty_envelope { resource = q.resource; query_data = some q.query_data }))
      × (unmarshal_envelope equal_fold (marshal_notification n)
          ≡ some (record empty_envelope {
            name = n.name;
            event_id = n.event_id;
            payload = some n.payload;
          }))
unfolding unmarshal_envelope marshal_event marshal_command marshal_query marshal_notification
    String_discrete
unmarshal-marshal equal_fold e c q n = (refl, refl, refl, refl)

-- A marshalled event is accepted exactly if it has a name: then it is read back with its name, its id
-- and its payload, and an event with an empty name is refused for its missing fields.
pub unmarshal_raw-event :
    (equal_fold : String → String → Bool) (e : DomainEvent Json)
    → (e.name ≢ ""
        → unmarshal_raw equal_fold (some (marshal_event e))
          ≡ decoded (record empty_envelope {
            name = e.name;
            event_id = e.event_id;
            payload = some e.payload;
          }))
      × (e.name ≡ "" → unmarshal_raw equal_fold (some (marshal_event e)) ≡ refused missing_fields)
unfolding unmarshal_raw
unmarshal_raw-event equal_fold e =
    let read =
      (unmarshal-marshal equal_fold e (record { name = ""; command_id = ""; payload = null })
        (record { resource = ""; query_data = null }) e').0 in
    (λ n. ground (arith, read, n), λ z. ground (arith, read, z))
  where
    e' : Notification Json
    e' = record { name = ""; event_id = ""; payload = null }

-- A marshalled query with a resource is read back with its resource and its data.
pub unmarshal_raw-query :
    (equal_fold : String → String → Bool) (q : AsyncQuery Json)
    → q.resource ≢ ""
    → unmarshal_raw equal_fold (some (marshal_query q))
      ≡ decoded (record empty_envelope { resource = q.resource; query_data = some q.query_data })
unfolding unmarshal_raw
unmarshal_raw-query equal_fold q n =
    let (_, _, read, _) =
      unmarshal-marshal equal_fold (record { name = ""; event_id = ""; payload = null })
        (record { name = ""; command_id = ""; payload = null }) q
        (record { name = ""; event_id = ""; payload = null }) in
    ground (arith, read, n)
