-- ===== src/Kafka/Queries/Samples.antt =====
-- Runs of the query listener of internal/kafka: a query with its answer, and its way back.
use reactive_commons_go.Base.{◌≡◌, refl, String, Bool, false, [], ◌∷◌, Option, none, some, arith}
use text.Mathlib.TextEquality.{eq_iff}
use reactive_commons_go.Base.Dict.{lookup}
use reactive_commons_go.Async.{AsyncQuery}
use reactive_commons_go.Async.JsonValue.{Json, object, member, no_members}
use reactive_commons_go.Async.JsonValue
use reactive_commons_go.Async.Wire.{marshal_query}
use reactive_commons_go.ReplyRouter.{ReplyPayload, Awaited, new_reply_router, route}
use reactive_commons_go.ReplyRouter.Delivery.{IsValid, none_left, run}
use reactive_commons_go.Kafka.Config.Samples.{shop}
use reactive_commons_go.Kafka.Topology.{topic_for_reply}
use reactive_commons_go.Kafka.Gateway.{
  Message, request_reply, query_message, timeout_ms, awaited, byte_length,
}
use reactive_commons_go.Kafka.Queries.{
  invokes, publishes, commits, returns, invoke_handler, QueryHandler, process_query, route_reply,
}
use reactive_commons_go.Kafka.Queries.Answers.{Answered, process_query-Answered}
use reactive_commons_go.Kafka.Queries.RoundTrip.{Reads, asker, query_answered}

abbrev exact : String → String → Bool
exact _ _ = false

abbrev query : AsyncQuery Json
query = record { resource = "stock"; query_data = JsonValue.text "7" }

-- The text of an error's JSON is its message here, that of any other value "42".
abbrev render : Json → String
render (object (member _ (JsonValue.text s) no_members)) = s
render _ = "42"

abbrev parse : String → Option Json
unfolding marshal_query
parse _ = some (marshal_query query)

abbrev handler : QueryHandler Json
handler q from = returns (some (JsonValue.text "12"))

abbrev handlers : String → Option (QueryHandler Json)
handlers _ = some handler

abbrev late : ReplyPayload
late = record { body = "late"; is_error = false; is_empty = false }

new-IsValid : IsValid new_reply_router
unfolding lookup
new-IsValid = record {
  made = λ id ch e. ground (arith, e);
  once = λ id other ch e f. ground (arith, e);
}

abbrev sent : Message
unfolding query_message timeout_ms
sent = query_message shop "q-1" "store" (render (marshal_query query)) "stock" (timeout_ms none 0)

abbrev asked : AsyncQuery (Option Json)
asked = record { resource = "stock"; query_data = some (JsonValue.text "7") }

query_answered_example :
    (a : Message) × (got : Awaited) × (process_query
        (λ v. some v)
        render
        shop
        (λ _. none)
        exact
        parse
        (λ _. "")
        handlers
        sent
      ≡ invokes asked (asker "q-1" (topic_for_reply shop)) ∷ publishes a ∷ commits ∷ [])
    × (a.topic ≡ topic_for_reply shop)
    × (let s =
          request_reply
            (λ v. some v)
            render
            shop
            (λ _. none)
            (λ s. some s)
            none
            "q-1"
            query
            "store"
            none
            0
            (λ t. route "q-1" late (route_reply a (run [] t)))
            false
            new_reply_router in
        (s.published ≡ sent ∷ []) × (s.answer ≡ awaited got))
    × Reads
        (λ v. some v)
        render
        (invoke_handler (handler asked (asker "q-1" (topic_for_reply shop))))
        got
unfolding marshal_query topic_for_reply byte_length invoke_handler sent query_message
query_answered_example =
    query_answered (λ v. some v) (λ v. some v) render parse (λ s. some s) exact (λ _. "") shop shop
      (λ _. none) (λ _. none) none handlers handler "q-1" query (JsonValue.text "7") "store" none 0
      [] late new_reply_router refl (λ e. ground (arith, eq_iff "stock" "", e)) refl
      (λ e. ground (arith, eq_iff "q-1" "", e)) (λ e. ground (arith, eq_iff "shop.replies" "", e))
      (λ e. refl) new-IsValid none_left refl (λ e. ground (arith, eq_iff "store" "", e)) refl refl
      refl refl refl

abbrev unrouted : Message
unrouted = record { topic = "shop.queries"; key = "k"; value = "?"; headers = [] }

process_query-Answered_example :
    Answered
      (λ v. some v)
      render
      shop
      (λ _. none)
      exact
      parse
      (λ _. "")
      handlers
      unrouted
      (process_query (λ v. some v) render shop (λ _. none) exact parse (λ _. "") handlers unrouted)
process_query-Answered_example =
    process_query-Answered (λ v. some v) render shop (λ _. none) exact parse (λ _. "") handlers
      unrouted
