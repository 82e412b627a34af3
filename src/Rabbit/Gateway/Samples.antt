-- ===== src/Rabbit/Gateway/Samples.antt =====
-- Runs of internal/rabbit/gateway.go: a query with its reply, its timeout and what it leaves behind.
use reactive_commons_go.Base.{
  ◌*◌, ◌/◌, ◌-◌, ◌^◌, ◌≤◌, ◌<◌, ◌≡◌, ◌≢◌, refl, String, true, false, not, ◌||◌, [], ◌∷◌, Option,
  none, some, arith, String_discrete, is_empty,
}
use text.Mathlib.TextEquality.{eq_iff}
use reactive_commons_go.Base.Dict.{Dict, lookup}
use reactive_commons_go.Base.Int.{pos, negsuc, ltb_ℤ}
use reactive_commons_go.Async.{AsyncQuery}
use reactive_commons_go.Async.Headers.{reply_timeout_millis}
use reactive_commons_go.Async.JsonValue.{Json, object, member, no_members}
use reactive_commons_go.Async.JsonValue
use reactive_commons_go.ReplyRouter.{
  ReplyRouter, ReplyPayload, new_reply_router, register, route, await_reply,
}
use reactive_commons_go.ReplyRouter.Delivery.{IsValid, none_left, run}
use reactive_commons_go.Rabbit.Config.Samples.{shop}
use reactive_commons_go.Rabbit.Headers.{HeaderValue, int64}
use reactive_commons_go.Rabbit.Dispatch.{Delivery, Outcome, returns, from_of, answer}
use reactive_commons_go.Rabbit.Gateway.{
  Sent, Asked, header_duration_millis, reply_context, request_deadline, timeout_ms, query_headers,
  request_reply, route_reply, refused, no_reply_queue,
}
use reactive_commons_go.Rabbit.Gateway.Durations.{
  time_left, header_duration_millis_lem, reply_context-query_headers,
}
use reactive_commons_go.Rabbit.Gateway.Requests.{request_reply-deregisters}
use reactive_commons_go.Rabbit.Gateway.RoundTrip.{query_round_trip, sent_for_all, expected}

header_duration_millis_lem_example :
    (10000000000000 ≤ 9223372036854
      → header_duration_millis
          ((reply_timeout_millis, int64 (pos 10000000000000)) ∷ [])
          reply_timeout_millis
        ≡ some (pos (10000000000000 * 1000000)))
    × (9223372036854 < 10000000000000
        → 10000000000000 ≤ 18446744073709
        → header_duration_millis
            ((reply_timeout_millis, int64 (pos 10000000000000)) ∷ [])
            reply_timeout_millis
          ≡ some (negsuc (2 ^ 64 - 1 - 10000000000000 * 1000000)))
unfolding lookup String_discrete
header_duration_millis_lem_example =
    header_duration_millis_lem ((reply_timeout_millis, int64 (pos 10000000000000)) ∷ [])
      reply_timeout_millis (int64 (pos 10000000000000)) 10000000000000 refl refl (omega arith)

abbrev sample_headers : Dict HeaderValue
sample_headers =
    query_headers shop "shop.replies.x" "q-1" "stock"
      (timeout_ms (request_deadline shop none) 5000000)

reply_context-query_headers_example :
    let left = time_left shop none 5000000 in
    (1000000 ≤ left → reply_context shop sample_headers ≡ some (pos (left / 1000000 * 1000000)))
    × (left < 1000000
        → ltb_ℤ (pos 0) shop.reply_timeout ≡ true
        → reply_context shop sample_headers ≡ some shop.reply_timeout)
    × (left < 1000000
        → ltb_ℤ (pos 0) shop.reply_timeout ≡ false
        → reply_context shop sample_headers ≡ none)
unfolding time_left
reply_context-query_headers_example =
    reply_context-query_headers shop shop "shop.replies.x" "q-1" "stock" none 5000000 (omega arith)

abbrev query : AsyncQuery Json
query = record { resource = "stock"; query_data = JsonValue.text "7" }

-- The text of an error's JSON is its message here, that of any other value "42".
abbrev render : Json → String
render (object (member _ (JsonValue.text s) no_members)) = s
render _ = "42"

abbrev asked : Asked
asked =
    request_reply (λ v. some v) render shop (λ _. some "no broker") (λ s. some s) "shop.replies.x"
      true "q-1" query "store" none 0 (λ s. s) false new_reply_router

request_reply-deregisters_example :
    ((is_empty "shop.replies.x" || not true) ≡ true
      → (asked.router ≡ new_reply_router)
        × (asked.sent ≡ [])
        × (asked.answer ≡ refused no_reply_queue))
    × ((is_empty "shop.replies.x" || not true) ≡ false
        → (lookup "q-1" asked.router.channels ≡ none)
          × ((k : String)
              → k ≢ "q-1"
              → ((s : ReplyRouter) → lookup k s.channels ≡ lookup k s.channels)
              → lookup k asked.router.channels ≡ lookup k new_reply_router.channels))
request_reply-deregisters_example =
    request_reply-deregisters (λ v. some v) render shop (λ _. some "no broker") (λ s. some s)
      "shop.replies.x" true "q-1" query "store" none 0 (λ s. s) false new_reply_router

new-IsValid : IsValid new_reply_router
unfolding lookup
new-IsValid = record {
  made = λ id ch e. ground (arith, e);
  once = λ id other ch e f. ground (arith, e);
}

abbrev late : ReplyPayload
late = record { body = "late"; is_error = false; is_empty = false }

abbrev answered : Outcome (Option Json)
answered = returns (some (JsonValue.text "x"))

abbrev delivery : Delivery
delivery = record {
  body = none;
  headers = query_headers shop "shop.replies.x" "q-1" "stock" "15000";
}

query_round_trip_example :
    (m : Sent) × (sent_for_all render shop (λ _. none) (answer (from_of delivery) answered).effects
      ≡ m ∷ [])
    × (m.exchange ≡ shop.global_reply_exchange)
    × (m.routing_key ≡ "shop.replies.x")
    × ((await_reply
          (λ s. some s)
          (register "q-1" new_reply_router).1
          false
          (route "q-1" late
            (route_reply m.headers m.body (run [] (register "q-1" new_reply_router).0)))).1
        ≡ expected render answered)
query_round_trip_example =
    query_round_trip render (λ s. some s) shop shop (λ _. none) "shop.replies.x" "q-1" "stock"
      "15000" none answered [] late new_reply_router (λ e. refl) new-IsValid none_left
      (λ e. ground (arith, eq_iff "q-1" "", e)) (λ e. ground (arith, e))
