-- ===== src/Async/Wire.antt =====
-- The wire format of pkg/async/types.go: what `json.Marshal` writes for a message with its struct tags,
-- and what `json.Unmarshal` reads into a `RawEnvelope`. Where no field has a key's name exactly,
-- encoding/json also takes a field whose name is equal under case folding, which is a parameter.
use reactive_commons_go.Base.{String, Bool, Option, none, some, ◌==◌, if◌then◌else◌}
use reactive_commons_go.Async.JsonValue.{
  Json, null, boolean, number, text, array, object, Members, no_members, member,
}
use reactive_commons_go.Async.{DomainEvent, Command, AsyncQuery, Notification, RawEnvelope}

abbrev pub empty_envelope : RawEnvelope
empty_envelope = record {
  name = "";
  event_id = "";
  command_id = "";
  resource = "";
  payload = none;
  query_data = none;
}

-- The fields of a `RawEnvelope`.
pub data Field : Type 0 where
  name event_id command_id resource payload query_data unknown : Field

abbrev pub field_named : (String → Bool) → Field
field_named is =
    if is "name"
    then name
    else if is "eventId"
    then event_id
    else if is "commandId"
    then command_id
    else if is "resource"
    then resource
    else if is "data"
    then payload
    else if is "queryData"
    then query_data
    else unknown

-- A `string` field: null leaves it, any other value than a string is an error.
abbrev pub read_text : String → Json → Option String
read_text old null = some old
read_text old (text s) = some s
read_text old (boolean _) = none
read_text old (number _) = none
read_text old (array _) = none
read_text old (object _) = none

abbrev map_option : {A B : Type 0} → (A → B) → Option A → Option B
map_option f none = none
map_option f (some a) = some (f a)

abbrev pub set_field : Field → Json → RawEnvelope → Option RawEnvelope
set_field name v e = map_option (λ s. record e { name = s }) (read_text e.name v)
set_field event_id v e = map_option (λ s. record e { event_id = s }) (read_text e.event_id v)
set_field command_id v e = map_option (λ s. record e { command_id = s }) (read_text e.command_id v)
set_field resource v e = map_option (λ s. record e { resource = s }) (read_text e.resource v)
set_field payload v e = some (record e { payload = some v })
set_field query_data v e = some (record e { query_data = some v })
set_field unknown v e = some e

module _ (equal_fold : String → String → Bool) where
  abbrev pub field_of : String → Field
  field_of key = elim (field_named (λ tag. tag == key)) [
    | unknown ↦ field_named (λ tag. equal_fold tag key)
    | f ↦ f
  ]

  unfoldable pub read_members : Members → RawEnvelope → Option RawEnvelope
  read_members no_members e = some e
  read_members (member key v ms) e = elim (set_field (field_of key) v e) [
    | none ↦ none
    | some e' ↦ read_members ms e'
  ]

  -- `json.Unmarshal(body, &env)` with an empty `env`.
  unfoldable pub unmarshal_envelope : Json → Option RawEnvelope
  unfolding read_members
  unmarshal_envelope null = some empty_envelope
  unmarshal_envelope (object ms) = read_members ms empty_envelope
  unmarshal_envelope (boolean _) = none
  unmarshal_envelope (number _) = none
  unmarshal_envelope (text _) = none
  unmarshal_envelope (array _) = none

-- `json.Marshal` of the messages, whose payload is already a value.
unfoldable pub marshal_event : DomainEvent Json → Json
marshal_event e = object (
    member "name" (text e.name)
      (member "eventId" (text e.event_id) (member "data" e.payload no_members)))

unfoldable pub marshal_command : Command Json → Json
marshal_command c = object (
    member "name" (text c.name)
      (member "commandId" (text c.command_id) (member "data" c.payload no_members)))

unfoldable pub marshal_query : AsyncQuery Json → Json
marshal_query q =
    object (member "resource" (text q.resource) (member "queryData" q.query_data no_members))

unfoldable pub marshal_notification : Notification Json → Json
marshal_notification n = object (
    member "name" (text n.name)
      (member "eventId" (text n.event_id) (member "data" n.payload no_members)))
