-- ===== src/Rabbit/Gateway/RoundTrip.antt =====
-- internal/rabbit/gateway.go, querylistener.go and replylistener.go: a query's answer comes back to the
-- caller that asked.
use reactive_commons_go.Base.{
  ◌≡◌, ◌≢◌, refl, ◌∙◌, String, Bool, true, false, List, [], ◌∷◌, ◌++◌, Option, none, some, arith,
  is_empty, ◌==◌, String_discrete,
}
use reactive_commons_go.Base.Dict.{Dict, lookup}
use reactive_commons_go.Async.{From}
use reactive_commons_go.Async.Headers.{correlation_id, reply_error, completion_only_signal}
use reactive_commons_go.Async.JsonValue.{Json}
use reactive_commons_go.ReplyRouter.{
  ReplyRouter, ReplyPayload, register, route, Awaited, body, fails, handler_error, await_reply,
}
use reactive_commons_go.ReplyRouter.Delivery.{
  IsValid, Operation, AllOther, run, reading, reply_round_trip,
}
use reactive_commons_go.Rabbit.Config.{Config}
use reactive_commons_go.Rabbit.Headers.{HeaderValue, header_string}
use reactive_commons_go.Rabbit.Dispatch.{
  Delivery, Outcome, returns, fails as handler_fails, panics, Effect, acks, nacks, replies,
  replies_error, from_of, answer,
}
use reactive_commons_go.Rabbit.Gateway.{
  Sent, reply, error_reply, error_json, query_headers, route_reply,
}

module _ (render : Json → String) (cfg : Config) (sends : Sent → Option String) where
  -- What the gateway sends for an effect of a delivery.
  unfoldable pub sent_for : Effect → List Sent
  unfolding reply error_reply
  sent_for acks = []
  sent_for (nacks _) = []
  sent_for (replies from result) = (reply (λ v. some v) render cfg sends result from).sent
  sent_for (replies_error from e) =
      (error_reply {T = Json} (λ v. some v) render cfg sends e from).sent

  unfoldable pub sent_for_all : List Effect → List Sent
  sent_for_all [] = []
  sent_for_all (e ∷ es) = sent_for e ++ sent_for_all es

-- What the caller of `RequestReply` is to read.
abbrev pub expected : (Json → String) → Outcome (Option Json) → Awaited
expected render (returns none) = body none
expected render (returns (some v)) = body (some (render v))
expected render (handler_fails e) = fails (handler_error e)
expected render panics = body none

abbrev payload : String → Bool → Bool → ReplyPayload
payload text is_error is_empty = record { body = text; is_error = is_error; is_empty = is_empty }

abbrev payload_for : (Json → String) → Outcome (Option Json) → ReplyPayload
payload_for render (returns none) = payload "null" false true
payload_for render (returns (some v)) = payload (render v) false false
payload_for render (handler_fails e) = payload (render (error_json e)) true false
payload_for render panics = payload "" false false

abbrev asker : String → String → From
asker id reply_queue = record { correlation_id = id; reply_id = reply_queue }

from_of-query_headers :
    (cfg : Config) (reply_queue id resource ms : String) (query_body : Option Json)
    → from_of (record { body = query_body; headers = query_headers cfg reply_queue id resource ms })
      ≡ asker id reply_queue
unfolding header_string lookup query_headers String_discrete
from_of-query_headers cfg reply_queue id resource ms query_body = refl

route_reply-route :
    (headers : Dict HeaderValue) (text id a b : String) (s : ReplyRouter)
    → header_string headers correlation_id ≡ id
    → header_string headers reply_error ≡ a
    → header_string headers completion_only_signal ≡ b
    → id ≢ ""
    → route_reply headers text s ≡ route id (payload text (a == "true") (b == "true")) s
unfolding route_reply
route_reply-route headers text id a b s e f g named = rw e (rw f (rw g (ground arith)))

-- The message that carries the answer.
abbrev Carries :
    (Json → String)
    → Config
    → (Sent → Option String)
    → String
    → String
    → Outcome (Option Json)
    → Sent
    → Type 0
Carries render responder sends id reply_queue handler_end m =
    (sent_for_all render responder sends (answer (asker id reply_queue) handler_end).effects
      ≡ m ∷ [])
    × (m.exchange ≡ responder.global_reply_exchange)
    × (m.routing_key ≡ reply_queue)
    × ((s : ReplyRouter)
        → route_reply m.headers m.body s ≡ route id (payload_for render handler_end) s)

carried :
    (render : Json → String) (responder : Config) (sends : Sent → Option String)
    (id reply_queue : String) (handler_end : Outcome (Option Json))
    → id ≢ ""
    → handler_end ≢ panics
    → (m : Sent) × Carries render responder sends id reply_queue handler_end m
unfolding answer sent_for_all sent_for header_string lookup String_discrete
carried render responder sends id reply_queue (returns none) named calm =
    (_, (refl, refl, refl, λ s. route_reply-route _ "null" id "" "true" s refl refl refl named))
carried render responder sends id reply_queue (returns (some v)) named calm =
    (_, (refl, refl, refl, λ s. route_reply-route _ (render v) id "" "" s refl refl refl named))
carried render responder sends id reply_queue (handler_fails e) named calm = (
  _,
  (
    refl,
    refl,
    refl,
    λ s. route_reply-route _ (render (error_json e)) id "true" "" s refl refl refl named,
  ),
)
carried render responder sends id reply_queue panics named calm = absurd (calm refl)

reading-payload_for :
    (render : Json → String) (error_message : String → Option String)
    (handler_end : Outcome (Option Json))
    → ((e : String) → error_message (render (error_json e)) ≡ some e)
    → handler_end ≢ panics
    → reading error_message (payload_for render handler_end) ≡ expected render handler_end
unfolding reading
reading-payload_for render error_message (returns none) reads calm = refl
reading-payload_for render error_message (returns (some v)) reads calm = refl
reading-payload_for render error_message (handler_fails e) reads calm = rw (reads e)
reading-payload_for render error_message panics reads calm = absurd (calm refl)

-- The answer to a query comes back to the caller that asked: for a delivery with the headers that
-- `RequestReply` writes, a query handler that does not panic makes the gateway send one message, to the
-- reply exchange with the caller's reply queue as its routing key. When the caller's reply listener
-- routes it, whatever the router did for other correlation ids since the caller registered and even if
-- a second reply follows, the caller reads what the handler returned, nil as nil, and a handler's error
-- as that error. It is assumed that encoding/json reads back the error message that it wrote.
pub query_round_trip :
    (render : Json → String) (error_message : String → Option String) (cfg responder : Config)
    (sends : Sent → Option String) (reply_queue id resource ms : String) (query_body : Option Json)
    (handler_end : Outcome (Option Json)) (os : List Operation) (late : ReplyPayload)
    (r : ReplyRouter)
    → ((e : String) → error_message (render (error_json e)) ≡ some e)
    → IsValid r
    → AllOther id os
    → id ≢ ""
    → handler_end ≢ panics
    → let d : Delivery = record {
      body = query_body;
      headers = query_headers cfg reply_queue id resource ms;
    } in
      (m : Sent) × (sent_for_all render responder sends (answer (from_of d) handler_end).effects
        ≡ m ∷ [])
      × (m.exchange ≡ responder.global_reply_exchange)
      × (m.routing_key ≡ reply_queue)
      × ((await_reply error_message
            (register id r).1
            false
            (route id late (route_reply m.headers m.body (run os (register id r).0)))).1
          ≡ expected render handler_end)
query_round_trip render error_message cfg responder sends reply_queue id resource ms query_body
      handler_end os late r reads valid all named calm =
    let (m, (sent, to, key, routed)) =
      carried render responder sends id reply_queue handler_end named calm in
    let from = from_of-query_headers cfg reply_queue id resource ms query_body in
    let t = run os (register id r).0 in
    (
      m,
      rw from sent,
      to,
      key,
      rw (routed t) (
          reply_round_trip error_message id os (payload_for render handler_end) late r valid all
          ∙ reading-payload_for render error_message handler_end reads calm),
    )
