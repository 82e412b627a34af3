-- ===== src/Envelope/Samples.antt =====
-- A run of internal/envelope/codec.go on an event.
use reactive_commons_go.Base.{String, ◌≡◌, ◌≢◌, Bool, false, some}
use reactive_commons_go.Async.{DomainEvent}
use reactive_commons_go.Async.JsonValue.{Json, number}
use reactive_commons_go.Async.Wire.{empty_envelope, marshal_event}
use reactive_commons_go.Envelope.{unmarshal_raw, decoded, refused, missing_fields}
use reactive_commons_go.Envelope.RoundTrip.{unmarshal_raw-event}

abbrev exact : String → String → Bool
exact _ _ = false

abbrev event : DomainEvent Json
event = record { name = "order.created"; event_id = "e1"; payload = number "7" }

unmarshal_raw-event_example :
    (event.name ≢ ""
      → unmarshal_raw exact (some (marshal_event event))
        ≡ decoded (record empty_envelope {
          name = event.name;
          event_id = event.event_id;
          payload = some event.payload;
        }))
    × (event.name ≡ "" → unmarshal_raw exact (some (marshal_event event)) ≡ refused missing_fields)
unmarshal_raw-event_example = unmarshal_raw-event exact event
