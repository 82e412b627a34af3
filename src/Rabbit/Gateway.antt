-- ===== src/Rabbit/Gateway.antt =====
-- internal/rabbit/gateway.go, eventbus.go and replylistener.go: what is sent for a command, a query, an
-- event, a notification and a reply, and what becomes of a reply that comes in. `encode` is the coding
-- of a payload, `render` the text of a JSON value, and `sends` how the sender ends: `none`, or an
-- error. Durations are in nanoseconds; a deadline is the time that is left until it.
pub mod Durations
pub mod Requests
pub mod RoundTrip
mod Samples
use Prim.Native.String.{◌++◌ as append}
use reactive_commons_go.Base.{
  ℕ, ◌+◌, ◌*◌, ◌/◌, String, Bool, true, false, not, ◌||◌, List, [], ◌∷◌, Option, none, some,
  if◌then◌else◌, is_empty, ◌==◌,
}
use reactive_commons_go.Base.Dict.{Dict, lookup, insert}
use reactive_commons_go.Base.Decimal.{format_nat, parse_int}
use reactive_commons_go.Base.Int.{ℤ, pos, pos_part, neg_part, sub_ℕ, int64, ltb_ℤ, leb_ℤ}
use reactive_commons_go.Async.{DomainEvent, Command, AsyncQuery, Notification, From}
use reactive_commons_go.Async.Headers.{
  reply_id, correlation_id, completion_only_signal, served_query_id, source_application,
  reply_timeout_millis, reply_error,
}
use reactive_commons_go.Async.JsonValue.{Json, object, member, no_members}
use reactive_commons_go.Async.JsonValue
use reactive_commons_go.ReplyRouter.{ReplyRouter, register, route, deregister, Awaited, await_reply}
use reactive_commons_go.Rabbit.Config.{Config}
use reactive_commons_go.Rabbit.Converter.{event_json, command_json, query_json, notification_json}
use reactive_commons_go.Rabbit.Headers.{
  HeaderValue, text, bytes, int, int32, int64 as int64_, float64, nil, other, header_string,
}

-- The arguments of `SendWithConfirm`, or of `SendNoConfirm`.
pub record Sent : Type 0 where
  pub confirmed : Bool
  pub body : String
  pub exchange : String
  pub routing_key : String
  pub headers : Dict HeaderValue
  pub persistent : Bool

pub data Failure : Type 0 where
  not_marshalled : Failure
  not_sent : String → Failure
  -- "reply queue not initialized"
  no_reply_queue : Failure

pub record Run : Type 0 where
  pub sent : List Sent
  pub error : Option Failure

-- The switch of `headerDurationMillis`.
abbrev pub millis_of : HeaderValue → Option ℤ
millis_of (text s) = parse_int s
millis_of (bytes s) = parse_int s
millis_of (int n) = some n
millis_of (int32 n) = some n
millis_of (int64_ n) = some n
millis_of (float64 n) = some n
millis_of nil = none
millis_of other = none

-- `time.Duration(ms) * time.Millisecond`, where `ms` is positive.
abbrev pub milliseconds : ℤ → Option ℤ
milliseconds ms = if leb_ℤ ms (pos 0) then none else some (int64 (pos_part ms * 1000000))

unfoldable pub header_duration_millis : Dict HeaderValue → String → Option ℤ
unfolding lookup parse_int
header_duration_millis headers key = elim (lookup key headers) [
  | none ↦ none
  | some v ↦ elim (millis_of v) [ none ↦ none | some ms ↦ milliseconds ms ]
]

-- The timeout that `replyContext` adds.
unfoldable pub reply_context : Config → Dict HeaderValue → Option ℤ
unfolding header_duration_millis
reply_context cfg headers = elim (header_duration_millis headers reply_timeout_millis) [
  | some d ↦ some d
  | none ↦ if ltb_ℤ (pos 0) cfg.reply_timeout then some cfg.reply_timeout else none
]

-- The deadline of a request whose caller has the deadline `d`, or none.
unfoldable pub request_deadline : Config → Option ℤ → Option ℤ
request_deadline cfg (some d) = some d
request_deadline cfg none = if ltb_ℤ (pos 0) cfg.reply_timeout then some cfg.reply_timeout else none

-- The time left in milliseconds, `elapsed` later.
unfoldable pub timeout_ms : Option ℤ → ℕ → String
timeout_ms none elapsed = "0"
timeout_ms (some d) elapsed =
    format_nat (pos_part (sub_ℕ (pos_part d) (neg_part d + elapsed)) / 1000000)

unfoldable pub query_headers : Config → String → String → String → String → Dict HeaderValue
query_headers cfg reply_queue id resource ms =
    (reply_id, text reply_queue)
    ∷ (correlation_id, text id)
    ∷ (served_query_id, text resource)
    ∷ (reply_timeout_millis, text ms)
    ∷ (source_application, text cfg.app_name)
    ∷ []

abbrev pub source_headers : Config → Dict HeaderValue
source_headers cfg = (source_application, text cfg.app_name) ∷ []

-- The JSON of `map[string]string{"errorMessage": errMsg}`.
abbrev pub error_json : String → Json
error_json message = object (member "errorMessage" (JsonValue.text message) no_members)

-- How `RequestReply` ends: before it waits for a reply, or with what it awaited.
pub data Answer : Type 0 where
  refused : Failure → Answer
  awaited : Awaited → Answer

pub record Asked : Type 0 where
  pub router : ReplyRouter
  pub sent : List Sent
  pub answer : Answer

module _ {T : Type 0} (encode : T → Option Json) (render : Json → String) (cfg : Config)
    (sends : Sent → Option String) where
  -- A call of the sender, whose error is passed on.
  abbrev pub send : Sent → Run
  send m = record {
    sent = m ∷ [];
    error = elim (sends m) [ none ↦ none | some e ↦ some (not_sent e) ];
  }

  -- `ToMessage` and the send that follows.
  abbrev send_json : Option Json → (String → Sent) → Run
  send_json none message = record { sent = []; error = some not_marshalled }
  send_json (some v) message = send (message (render v))

  unfoldable pub send_command : Command T → String → Run
  unfolding command_json
  send_command cmd target = send_json (command_json encode cmd) λ body. record {
    confirmed = true;
    body = body;
    exchange = cfg.direct_messages_exchange;
    routing_key = target;
    headers = source_headers cfg;
    persistent = cfg.persistent_commands;
  }

  unfoldable pub emit : DomainEvent T → Run
  unfolding event_json
  emit event = send_json (event_json encode event) λ body. record {
    confirmed = true;
    body = body;
    exchange = cfg.domain_events_exchange;
    routing_key = event.name;
    headers = source_headers cfg;
    persistent = cfg.persistent_events;
  }

  unfoldable pub emit_notification : Notification T → Run
  unfolding notification_json
  emit_notification n = send_json (notification_json encode n) λ body. record {
    confirmed = false;
    body = body;
    exchange = cfg.domain_events_exchange;
    routing_key = n.name;
    headers = source_headers cfg;
    persistent = false;
  }

  abbrev pub reply_message : From → String → Dict HeaderValue → Sent
  reply_message from body headers = record {
    confirmed = true;
    body = body;
    exchange = cfg.global_reply_exchange;
    routing_key = from.reply_id;
    headers = headers;
    persistent = false;
  }

  abbrev pub reply_headers : From → Dict HeaderValue
  reply_headers from =
      (correlation_id, text from.correlation_id) ∷ (source_application, text cfg.app_name) ∷ []

  -- A nil response is `none`.
  unfoldable pub reply : Option T → From → Run
  unfolding insert
  reply none from =
      send (
        reply_message from "null"
          (insert completion_only_signal (text "true") (reply_headers from)))
  reply (some response) from =
      send_json (encode response) (λ body. reply_message from body (reply_headers from))

  -- `replyError`
  unfoldable pub error_reply : String → From → Run
  error_reply message from = send (
      reply_message from (render (error_json message)) (
        (correlation_id, text from.correlation_id)
        ∷ (reply_error, text "true")
        ∷ (source_application, text cfg.app_name)
        ∷ []))

  abbrev pub query_message : String → String → Dict HeaderValue → Sent
  query_message target body headers = record {
    confirmed = true;
    body = body;
    exchange = cfg.direct_messages_exchange;
    routing_key = append target ".query";
    headers = headers;
    persistent = cfg.persistent_queries;
  }

  -- `RequestReply` with the correlation id `id`. `between` is what the others do with the router from
  -- the send until the wait ends; the other parameters are those of `await_reply`.
  unfoldable pub request_reply :
      (String → Option String)
      → String
      → Bool
      → String
      → AsyncQuery T
      → String
      → Option ℤ
      → ℕ
      → (ReplyRouter → ReplyRouter)
      → Bool
      → ReplyRouter
      → Asked
  request_reply error_message reply_queue has_router id query target deadline elapsed between done
        r =
      if is_empty reply_queue || not has_router
      then record { router = r; sent = []; answer = refused no_reply_queue }
      else let (waiting, ch) = register id r in
        elim (query_json encode query) [
          | none ↦ record {
            router = deregister id waiting;
            sent = [];
            answer = refused not_marshalled;
          }
          | some v ↦
              let m = query_message target (render v) (
                query_headers cfg reply_queue id query.resource
                  (timeout_ms (request_deadline cfg deadline) elapsed)) in
              elim (sends m) [
                | some e ↦ record {
                  router = deregister id (between waiting);
                  sent = m ∷ [];
                  answer = refused (not_sent e);
                }
                | none ↦
                    let (read, a) = await_reply error_message ch done (between waiting) in
                    record { router = deregister id read; sent = m ∷ []; answer = awaited a }
              ]
        ]

-- `replyListener.route` of a delivery with these headers and this body.
unfoldable pub route_reply : Dict HeaderValue → String → ReplyRouter → ReplyRouter
unfolding header_string route
route_reply headers body r =
    let id = header_string headers correlation_id in
    if is_empty id
    then r
    else route id
        (record {
          body = body;
          is_error = header_string headers reply_error == "true";
          is_empty = header_string headers completion_only_signal == "true";
        })
        r
