-- ===== src/Rabbit/Converter/Samples.antt =====
-- A run of internal/rabbit/converter.go on texts as payloads.
use reactive_commons_go.Base.{String, ◌≡◌, Bool, false, Option, none, some, arith}
use reactive_commons_go.Async.{DomainEvent, Command, AsyncQuery}
use reactive_commons_go.Async.JsonValue.{Json, null, boolean, number, text, array, object}
use reactive_commons_go.Async.Wire.{marshal_event}
use reactive_commons_go.Rabbit.Converter.{
  event_json, command_json, query_json, read_payload, read_domain_event, read_command, read_query,
}
use reactive_commons_go.Rabbit.Converter.RoundTrip.{message_round_trip}

abbrev exact : String → String → Bool
exact _ _ = false

abbrev encode : String → Option Json
encode s = some (text s)

abbrev decode : Json → Option String
decode null = none
decode (boolean _) = none
decode (number _) = none
decode (text s) = some s
decode (array _) = none
decode (object _) = none

codes : (d : String) (v : Json) → encode d ≡ some v → read_payload "" decode (some v) ≡ some d
codes d v e = ground (arith, e)

abbrev event : DomainEvent String
event = record { name = "greeting"; event_id = "e1"; payload = "hello" }

abbrev command : Command String
command = record { name = "greet"; command_id = "c1"; payload = "hello" }

abbrev query : AsyncQuery String
query = record { resource = "greeting"; query_data = "hello" }

abbrev value : Json
value = marshal_event (record { name = "greeting"; event_id = "e1"; payload = text "hello" })

message_round_trip_example :
    (event_json encode event ≡ some value
      → read_domain_event "" decode exact (some value) ≡ some event)
    × (command_json encode command ≡ some value
        → read_command "" decode exact (some value) ≡ some command)
    × (query_json encode query ≡ some value → read_query "" decode exact (some value) ≡ some query)
message_round_trip_example =
    message_round_trip "" encode decode exact codes event command query value
