-- ===== src/Rabbit/Converter.antt =====
-- internal/rabbit/converter.go: messages from and to JSON. A body is the JSON value it holds, `none`
-- where it is not JSON; the coding of a payload type `T` is a parameter, with its zero value.
pub mod RoundTrip
mod Samples
use reactive_commons_go.Base.{String, Bool, true, false, Option, none, some, ◌>>=◌}
use reactive_commons_go.Async.{RawEnvelope, DomainEvent, Command, AsyncQuery, Notification}
use reactive_commons_go.Async.JsonValue.{Json, null, boolean, number, text, array, object}
use reactive_commons_go.Async.Wire.{
  unmarshal_envelope, marshal_event, marshal_command, marshal_query, marshal_notification,
}

-- `ToMessage` of a message whose payload marshals to a value, or fails: `none` is ErrDeserialize.
module _ {T : Type 0} (encode : T → Option Json) where
  unfoldable pub event_json : DomainEvent T → Option Json
  unfolding marshal_event
  event_json e = elim (encode e.payload) [
    | none ↦ none
    | some v ↦ some (marshal_event (record { name = e.name; event_id = e.event_id; payload = v }))
  ]

  unfoldable pub command_json : Command T → Option Json
  unfolding marshal_command
  command_json c = elim (encode c.payload) [
    | none ↦ none
    | some v ↦
        some (marshal_command (record { name = c.name; command_id = c.command_id; payload = v }))
  ]

  unfoldable pub query_json : AsyncQuery T → Option Json
  unfolding marshal_query
  query_json q = elim (encode q.query_data) [
    | none ↦ none
    | some v ↦ some (marshal_query (record { resource = q.resource; query_data = v }))
  ]

  unfoldable pub notification_json : Notification T → Option Json
  unfolding marshal_notification
  notification_json n = elim (encode n.payload) [
    | none ↦ none
    | some v ↦
        some (marshal_notification (record { name = n.name; event_id = n.event_id; payload = v }))
  ]

module _ {T : Type 0} (zero_value : T) (decode : Json → Option T) where
  -- `len(raw) > 0 && string(raw) != "null"` with the decoding that follows.
  abbrev pub read_payload : Option Json → Option T
  read_payload none = some zero_value
  read_payload (some null) = some zero_value
  read_payload (some (boolean b)) = decode (boolean b)
  read_payload (some (number n)) = decode (number n)
  read_payload (some (text s)) = decode (text s)
  read_payload (some (array vs)) = decode (array vs)
  read_payload (some (object ms)) = decode (object ms)

  module _ (equal_fold : String → String → Bool) where
    abbrev unmarshal : Option Json → Option RawEnvelope
    unmarshal none = none
    unmarshal (some v) = unmarshal_envelope equal_fold v

    -- `none` is ErrDeserialize here too.
    unfoldable pub read_domain_event : Option Json → Option (DomainEvent T)
    read_domain_event body = do
      env ← unmarshal body
      d ← read_payload env.payload
      some (record { name = env.name; event_id = env.event_id; payload = d })

    unfoldable pub read_command : Option Json → Option (Command T)
    read_command body = do
      env ← unmarshal body
      d ← read_payload env.payload
      some (record { name = env.name; command_id = env.command_id; payload = d })

    unfoldable pub read_query : Option Json → Option (AsyncQuery T)
    read_query body = do
      env ← unmarshal body
      d ← read_payload env.query_data
      some (record { resource = env.resource; query_data = d })

    unfoldable pub read_notification : Option Json → Option (Notification T)
    read_notification body = do
      env ← unmarshal body
      d ← read_payload env.payload
      some (record { name = env.name; event_id = env.event_id; payload = d })
