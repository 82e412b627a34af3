-- ===== src/Kafka/Gateway.antt =====
-- internal/kafka/gateway.go, eventbus.go and producer.go: what is published for a command, a query, an
-- event, a notification and a reply. The coding of messages is that of Rabbit/Converter, since both
-- transports call `json.Marshal`; `render` is the text of a JSON value, and `sends` how the write to
-- the brokers ends: `none`, or an error. A header map's entries stand in the order in which `range`
-- happens to visit them. Spans and metrics are left out.
pub mod Requests
mod Samples
use Prim.Native.Char.{code}
use Prim.Native.String.{◌++◌ as append}
use reactive_commons_go.Base.{
  ℕ, ◌+◌, ◌/◌, String, Bool, true, false, not, ◌&&◌, ◌||◌, List, [], ◌∷◌, Option, none, some, ltb,
  if◌then◌else◌, is_empty,
}
use reactive_commons_go.Base.Dict.{Dict, insert}
use reactive_commons_go.Base.Decimal.{format_nat}
use reactive_commons_go.Base.Int.{ℤ, pos, pos_part, neg_part, sub_ℕ, ltb_ℤ}
use reactive_commons_go.Async.{DomainEvent, Command, AsyncQuery, Notification, From}
use reactive_commons_go.Async.Headers.{
  reply_id, correlation_id, completion_only_signal, served_query_id, source_application,
  reply_timeout_millis, reply_error,
}
use reactive_commons_go.Async.JsonValue.{Json, object, member, no_members}
use reactive_commons_go.Async.JsonValue
use reactive_commons_go.ReplyRouter.{ReplyRouter, register, deregister, Awaited, await_reply}
use reactive_commons_go.Rabbit.Converter.{event_json, command_json, query_json, notification_json}
use reactive_commons_go.Kafka.Config.{Config}
use reactive_commons_go.Kafka.Topology.{
  topic_for_event, topic_for_notification, topic_for_command, topic_for_query, topic_for_reply,
}

-- The message that `producer.publish` writes.
pub record Message : Type 0 where
  pub topic : String
  pub key : String
  pub value : String
  pub headers : Dict String

pub data Failure : Type 0 where
  no_target no_name replies_disabled no_reply_metadata : Failure
  not_marshalled : Failure
  -- `ErrPayloadTooLarge` with the size and the limit
  too_large : ℕ → ℤ → Failure
  not_published : String → Failure

pub record Run : Type 0 where
  pub published : List Message
  pub error : Option Failure

-- `len` of a text, the bytes of its UTF-8 encoding.
unfoldable pub byte_length : String → ℕ
byte_length String.[] = 0
byte_length (String.◌∷◌ c s) =
    (if ltb (code c) 128
      then 1
      else if ltb (code c) 2048
      then 2
      else if ltb (code c) 65536
      then 3
      else 4)
    + byte_length s

abbrev pub library_version : String
library_version = "0.1.0"

-- The header map of an event or a notification.
abbrev pub event_headers : String → Dict String
event_headers kind =
    ("content-type", "application/json")
    ∷ ("reactive-commons-envelope", "v1")
    ∷ ("reactive-commons-kind", kind)
    ∷ ("reactive-commons-version", library_version)
    ∷ []

abbrev pub rc_headers : String → String → Dict String
rc_headers kind app_name =
    ("content-type", "application/json")
    ∷ ("reactive-commons-envelope", "v1")
    ∷ ("reactive-commons-kind", kind)
    ∷ ("reactive-commons-version", library_version)
    ∷ (source_application, app_name)
    ∷ []

-- The time left until the deadline, in milliseconds and not below 0. The time is read `elapsed` after
-- the call, when the deadline was `d` away.
unfoldable pub timeout_ms : Option ℤ → ℕ → String
timeout_ms none elapsed = "0"
timeout_ms (some d) elapsed =
    format_nat (pos_part (sub_ℕ (pos_part d) (neg_part d + elapsed)) / 1000000)

unfoldable pub query_headers : Config → String → String → String → Dict String
unfolding insert topic_for_reply
query_headers cfg id resource ms = insert reply_timeout_millis ms (
    insert served_query_id resource (
      insert correlation_id id
        (insert reply_id (topic_for_reply cfg) (rc_headers "query" cfg.app_name))))

unfoldable pub query_message : Config → String → String → String → String → String → Message
unfolding query_headers topic_for_query
query_message cfg id target body resource ms = record {
  topic = topic_for_query cfg target;
  key = id;
  value = body;
  headers = query_headers cfg id resource ms;
}

abbrev pub reply_headers : Config → From → Dict String
reply_headers cfg from = insert correlation_id from.correlation_id (rc_headers "reply" cfg.app_name)

-- The JSON of `map[string]string{"errorMessage": errMsg}`.
abbrev pub error_json : String → Json
error_json message = object (member "errorMessage" (JsonValue.text message) no_members)

-- `awaitReplyReady`: the channel is nil for `none`; else the value is whether `select` takes it,
-- rather than the end of the context.
abbrev pub await_reply_ready : Option Bool → Bool
await_reply_ready none = true
await_reply_ready (some taken) = taken

-- How `RequestReply` ends.
pub data Answer : Type 0 where
  refused : Failure → Answer
  -- `ErrQueryTimeout`, before anything is published
  not_ready : Answer
  awaited : Awaited → Answer

pub record Asked : Type 0 where
  pub router : ReplyRouter
  pub published : List Message
  pub answer : Answer

abbrev pub is_too_large : Config → String → Bool
is_too_large cfg body =
    ltb_ℤ (pos 0) cfg.max_message_bytes && ltb_ℤ cfg.max_message_bytes (pos (byte_length body))

-- The reply metadata is there.
abbrev pub has_routing : From → Bool
has_routing from = not (is_empty from.correlation_id || is_empty from.reply_id)

-- Steps that publish nothing.
abbrev fail : Failure → Run
fail e = record { published = []; error = some e }

module _ {T : Type 0} (encode : T → Option Json) (render : Json → String) (cfg : Config)
    (sends : Message → Option String) where
  -- `producer.publish`
  abbrev pub publish : Message → Run
  publish m = record {
    published = m ∷ [];
    error = elim (sends m) [ none ↦ none | some e ↦ some (not_published e) ];
  }

  -- `envelope.Marshal`, the test of its size, and the publish that follows.
  unfoldable pub publish_envelope : Option Json → (String → Message) → Run
  unfolding byte_length
  publish_envelope none message = fail not_marshalled
  publish_envelope (some v) message =
      let body = render v in
      if is_too_large cfg body
      then fail (too_large (byte_length body) cfg.max_message_bytes)
      else publish (message body)

  -- `Emit`, where `fresh` is the result of `uuid.NewString`.
  unfoldable pub emit : String → DomainEvent T → Run
  unfolding event_json publish_envelope topic_for_event
  emit fresh event =
      let id =
        if is_empty event.event_id && cfg.auto_generate_missing_event_id
        then fresh
        else event.event_id in
      publish_envelope (event_json encode (record event { event_id = id })) λ body. record {
        topic = topic_for_event cfg event.name;
        key = id;
        value = body;
        headers = event_headers "event";
      }

  unfoldable pub emit_notification : String → Notification T → Run
  unfolding notification_json publish_envelope topic_for_notification
  emit_notification fresh n =
      let id =
        if is_empty n.event_id && cfg.auto_generate_missing_event_id then fresh else n.event_id in
      publish_envelope (notification_json encode (record n { event_id = id })) λ body. record {
        topic = topic_for_notification cfg n.name;
        key = id;
        value = body;
        headers = event_headers "notification";
      }

  unfoldable pub send_command : Command T → String → Run
  unfolding command_json publish_envelope topic_for_command
  send_command cmd target =
      if is_empty target
      then fail no_target
      else if is_empty cmd.name
      then fail no_name
      else publish_envelope (command_json encode cmd) λ body. record {
        topic = topic_for_command cfg target;
        key = cmd.command_id;
        value = body;
        headers = rc_headers "command" cfg.app_name;
      }

  -- `RequestReply` with the correlation id `id`. `between` is what the others do with the router from
  -- the publish until the wait ends; the other parameters are those of `await_reply`.
  unfoldable pub request_reply :
      (String → Option String)
      → Option Bool
      → String
      → AsyncQuery T
      → String
      → Option ℤ
      → ℕ
      → (ReplyRouter → ReplyRouter)
      → Bool
      → ReplyRouter
      → Asked
  unfolding register deregister await_reply query_json byte_length timeout_ms query_message
  request_reply error_message ready id query target deadline elapsed between done r =
      if cfg.disable_reply_listener
      then record { router = r; published = []; answer = refused replies_disabled }
      else if is_empty target
      then record { router = r; published = []; answer = refused no_target }
      else if not (await_reply_ready ready)
      then record { router = r; published = []; answer = not_ready }
      else let (waiting, ch) = register id r in
        elim (query_json encode query) [
          | none ↦ record {
            router = deregister id waiting;
            published = [];
            answer = refused not_marshalled;
          }
          | some v ↦
              let body = render v in
              let m =
                query_message cfg id target body query.resource (timeout_ms deadline elapsed) in
              if is_too_large cfg body
              then record {
                router = deregister id waiting;
                published = [];
                answer = refused (too_large (byte_length body) cfg.max_message_bytes);
              }
              else elim (sends m) [
                | some e ↦ record {
                  router = deregister id (between waiting);
                  published = m ∷ [];
                  answer = refused (not_published e);
                }
                | none ↦
                    let (read, a) = await_reply error_message ch done (between waiting) in
                    record { router = deregister id read; published = m ∷ []; answer = awaited a }
              ]
        ]

  -- `publishReply`
  abbrev pub publish_reply : From → String → Dict String → Run
  publish_reply from body headers =
      publish (record {
        topic = from.reply_id;
        key = from.correlation_id;
        value = body;
        headers = headers;
      })

  -- A nil response is `none`.
  unfoldable pub reply : Option T → From → Run
  unfolding insert
  reply response from = if not (has_routing from) then fail no_reply_metadata else elim response [
    | none ↦
        publish_reply from "null" (insert completion_only_signal "true" (reply_headers cfg from))
    | some value ↦ elim (encode value) [
      | none ↦ fail not_marshalled
      | some v ↦ publish_reply from (render v) (reply_headers cfg from)
    ]
  ]

  -- `replyError`
  unfoldable pub error_reply : String → From → Run
  unfolding insert
  error_reply message from =
      if not (has_routing from)
      then fail no_reply_metadata
      else publish_reply from (render (error_json message))
          (insert reply_error "true" (reply_headers cfg from))
