-- ===== src/Kafka/Queries.antt =====
-- internal/kafka/querylistener.go, replylistener.go and notificationlistener.go: one message, from its
-- bytes to its commit. What it causes is a list of effects in their order; a user's handler is a
-- function to how it ends. `parse` is the JSON value that a text holds, `none` where it is not JSON,
-- and `error_text` the text of a decoding error. A failed publish or commit is only logged.
pub mod Answers
pub mod RoundTrip
mod Samples
use Prim.Native.String.{◌++◌ as append}
use reactive_commons_go.Base.{
  String, Bool, not, ◌||◌, List, [], ◌∷◌, ◌++◌, Option, none, some, ◌==◌, if◌then◌else◌, is_empty,
}
use reactive_commons_go.Base.Dict.{lookup}
use reactive_commons_go.Async.{AsyncQuery, Notification, From, RawEnvelope}
use reactive_commons_go.Async.Headers.{
  reply_id, correlation_id, completion_only_signal, reply_error,
}
use reactive_commons_go.Async.JsonValue.{Json}
use reactive_commons_go.Envelope.{Decoded, decoded, refused, DecodeError, unmarshal_raw}
use reactive_commons_go.ReplyRouter.{ReplyRouter, route}
use reactive_commons_go.Kafka.Config.{Config}
use reactive_commons_go.Kafka.Gateway.{Message, reply, error_reply, has_routing}

-- The value of the first header with this key.
unfoldable pub header_value : Message → String → String
unfolding lookup
header_value m key = elim (lookup key m.headers) [ none ↦ "" | some v ↦ v ]

-- How a query handler ends; a panic carries its value as text.
pub data Outcome (R : Type 0) : Type 0 where
  returns : Option R → Outcome R
  fails panics : String → Outcome R

pub data Effect : Type 0 where
  invokes : AsyncQuery (Option Json) → From → Effect
  publishes : Message → Effect
  commits : Effect

pub data Result (R : Type 0) : Type 0 where
  result : Option R → Result R
  error : String → Result R

-- `queryListener.invokeHandler`
unfoldable pub invoke_handler : {R : Type 0} → Outcome R → Result R
invoke_handler (returns r) = result r
invoke_handler (fails e) = error e
invoke_handler (panics v) = error (append "kafka: query handler panic: " v)

abbrev pub from_of : Message → From
unfolding header_value
from_of m = record {
  correlation_id = header_value m correlation_id;
  reply_id = header_value m reply_id;
}

abbrev pub query_of : RawEnvelope → AsyncQuery (Option Json)
query_of raw = record { resource = raw.resource; query_data = raw.query_data }

abbrev pub no_resource : String
no_resource = "kafka: envelope decode: missing required field \"resource\""

abbrev pub all_published : List Message → List Effect
all_published [] = []
all_published (m ∷ ms) = publishes m ∷ all_published ms

abbrev pub QueryHandler : Type 0 → Type 0
QueryHandler R = AsyncQuery (Option Json) → From → Outcome R

module _ {R : Type 0} (encode : R → Option Json) (render : Json → String) (cfg : Config)
    (sends : Message → Option String) where
  -- What follows an envelope that is refused.
  unfoldable pub reject : From → String → List Effect
  unfolding error_reply
  reject from e =
      (if is_empty from.reply_id || is_empty from.correlation_id
        then []
        else all_published (error_reply encode render cfg sends e from).published)
      ++ (commits ∷ [])

  -- What follows the handler's end.
  unfoldable pub answer : From → Result R → List Effect
  unfolding reply error_reply
  answer from (result r) =
      all_published (reply encode render cfg sends r from).published ++ (commits ∷ [])
  answer from (error e) =
      all_published (error_reply encode render cfg sends e from).published ++ (commits ∷ [])

  module _ (equal_fold : String → String → Bool) (parse : String → Option Json)
      (error_text : DecodeError → String) (handlers : String → Option (QueryHandler R)) where
    -- `queryListener.processMessage`; `handlers` is `QueryHandler` of the registry.
    unfoldable pub process_query : Message → List Effect
    unfolding header_value unmarshal_raw invoke_handler reject answer
    process_query m =
        let from = from_of m in
        elim (unmarshal_raw equal_fold (parse m.value)) [
          | refused e ↦ reject from (error_text e)
          | decoded raw ↦
              if is_empty raw.resource
              then reject from no_resource
              else elim (handlers raw.resource) [
                | none ↦ commits ∷ []
                | some handler ↦
                    invokes (query_of raw) from
                    ∷ answer from (invoke_handler (handler (query_of raw) from))
              ]
        ]

-- `replyListener.route`
unfoldable pub route_reply : Message → ReplyRouter → ReplyRouter
unfolding header_value route
route_reply m r =
    let id = header_value m correlation_id in
    if is_empty id
    then r
    else route id
        (record {
          body = m.value;
          is_error = header_value m reply_error == "true";
          is_empty = header_value m completion_only_signal == "true";
        })
        r

-- `notificationListener.processMessage`: what the handler gets, if it is called. A payload that is
-- JSON is decoded; its own error is only logged.
unfoldable pub process_notification :
    (String → String → Bool) → Option Json → Option (Notification (Option Json))
unfolding unmarshal_raw
process_notification equal_fold value = elim (unmarshal_raw equal_fold value) [
  | refused _ ↦ none
  | decoded raw ↦ some (record { name = raw.name; event_id = raw.event_id; payload = raw.payload })
]
