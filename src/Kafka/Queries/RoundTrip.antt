-- ===== src/Kafka/Queries/RoundTrip.antt =====
-- internal/kafka/gateway.go, querylistener.go and replylistener.go: a query's answer comes back to the
-- caller that asked.
use reactive_commons_go.Base.{
  ℕ, ◌≡◌, ◌≢◌, inl, inr, refl, ap, ◌∙◌, String, Bool, true, false, List, [], ◌∷◌, Option, none,
  some, arith, is_empty, String_discrete, Option-cases,
}
use reactive_commons_go.Base.Dict.{lookup, insert}
use reactive_commons_go.Base.Int.{ℤ}
use reactive_commons_go.Async.{AsyncQuery, From}
use reactive_commons_go.Async.JsonValue.{Json}
use reactive_commons_go.Async.Wire.{marshal_query}
use reactive_commons_go.Envelope.{DecodeError}
use reactive_commons_go.Envelope.RoundTrip.{unmarshal_raw-query}
use reactive_commons_go.ReplyRouter.{
  ReplyRouter, ReplyPayload, register, route, Awaited, body, fails, handler_error, await_reply,
}
use reactive_commons_go.ReplyRouter.Delivery.{
  IsValid, Operation, AllOther, run, reading, reply_round_trip,
}
use reactive_commons_go.Rabbit.Converter.{query_json}
use reactive_commons_go.Kafka.Config.{Config}
use reactive_commons_go.Kafka.Topology.{topic_for_reply}
use reactive_commons_go.Kafka.Gateway.{
  Message, is_too_large, await_reply_ready, query_message, query_headers, timeout_ms, request_reply,
  awaited, reply, error_reply, error_json,
}
use reactive_commons_go.Kafka.Queries.{
  invokes, publishes, commits, Result, result, error, invoke_handler, header_value, from_of,
  QueryHandler, answer, process_query, route_reply,
}
use reactive_commons_go.Kafka.Queries.Answers.{written_of, error_answer, nil_answer, value_answer}

abbrev pub asker : String → String → From
asker id topic = record { correlation_id = id; reply_id = topic }

abbrev payload : String → Bool → Bool → ReplyPayload
payload text is_error is_empty = record { body = text; is_error = is_error; is_empty = is_empty }

-- The caller reads the handler's result: nil as nil, a value as its JSON, and an error or a panic as
-- that error.
pub Reads : {R : Type 0} → (R → Option Json) → (Json → String) → Result R → Awaited → Type 0
Reads encode render (result none) a = a ≡ body none
Reads encode render (result (some value)) a =
    (v : Json) × (encode value ≡ some v) × (a ≡ body (some (render v)))
Reads encode render (error e) a = a ≡ fails (handler_error e)

module _ {R : Type 0} (encode : R → Option Json) (render : Json → String) (responder : Config)
    (sends : Message → Option String) (error_message : String → Option String)
    (id topic : String) where
  -- The answer to a query from `topic` with this correlation id.
  Carries : Result R → Message → Type 0
  Carries end a =
      (answer encode render responder sends (asker id topic) end ≡ publishes a ∷ commits ∷ [])
      × (a.topic ≡ topic)
      × (p : ReplyPayload) × ((s : ReplyRouter) → route_reply a s ≡ route id p s)
      × Reads encode render end (reading error_message p)

  carried :
      (end : Result R)
      → ((e : String) → error_message (render (error_json e)) ≡ some e)
      → id ≢ ""
      → topic ≢ ""
      → written_of encode render responder sends end ≡ true
      → (a : Message) × Carries end a
  unfolding Carries Reads answer reply error_reply route_reply header_value reading String_discrete
      insert lookup
  carried (result none) reads named to written = (
    nil_answer responder (asker id topic),
    (ground (arith, named, to), refl, payload "null" false true, λ s. ground (arith, named), refl),
  )
  carried (result (some value)) reads named to written = elim (Option-cases (encode value)) [
    | inl e ↦ ground (arith, e, written)
    | inr (v, e) ↦ (
      value_answer render responder (asker id topic) v,
      (
        ground (arith, named, to, e),
        refl,
        payload (render v) false false,
        λ s. ground (arith, named),
        (v, e, refl),
      ),
    )
  ]
  carried (error e) reads named to written = (
    error_answer render responder (asker id topic) e,
    (
      ground (arith, named, to),
      refl,
      payload (render (error_json e)) true false,
      λ s. ground (arith, named),
      rw (reads e) refl,
    ),
  )

-- A query that nothing keeps from being sent is published, and the caller reads its channel.
request_reply-sends :
    {T : Type 0} (encode : T → Option Json) (render : Json → String) (cfg : Config)
    (sends : Message → Option String) (error_message : String → Option String) (ready : Option Bool)
    (id : String) (query : AsyncQuery T) (target : String) (deadline : Option ℤ) (elapsed : ℕ)
    (between : ReplyRouter → ReplyRouter) (r : ReplyRouter) (v : Json)
    → query_json encode query ≡ some v
    → cfg.disable_reply_listener ≡ false
    → target ≢ ""
    → await_reply_ready ready ≡ true
    → is_too_large cfg (render v) ≡ false
    → let m = query_message cfg id target (render v) query.resource (timeout_ms deadline elapsed) in
      sends m ≡ none
      → let asked =
          request_reply encode render cfg sends error_message ready id query target deadline elapsed
            between false r in
        (asked.published ≡ m ∷ [])
        × (asked.answer
            ≡ awaited
                (await_reply error_message (register id r).1 false (between (register id r).0)).1)
unfolding request_reply
request_reply-sends encode render cfg sends error_message ready id query target deadline elapsed
      between r v coded enabled aimed primed small sent =
    (
      ground (arith, coded, enabled, aimed, primed, small, sent),
      ground (arith, coded, enabled, aimed, primed, small, sent),
    )

process_query-handled :
    {R : Type 0} (encode : R → Option Json) (render : Json → String) (responder : Config)
    (sends : Message → Option String) (equal_fold : String → String → Bool)
    (parse : String → Option Json) (error_text : DecodeError → String)
    (handlers : String → Option (QueryHandler R)) (handler : QueryHandler R) (m : Message)
    (q : AsyncQuery Json)
    → parse m.value ≡ some (marshal_query q)
    → q.resource ≢ ""
    → handlers q.resource ≡ some handler
    → let asked : AsyncQuery (Option Json) = record {
      resource = q.resource;
      query_data = some q.query_data;
    } in
      process_query encode render responder sends equal_fold parse error_text handlers m
      ≡ invokes asked (from_of m)
        ∷ answer encode render responder sends
            (from_of m)
            (invoke_handler (handler asked (from_of m)))
unfolding process_query
process_query-handled encode render responder sends equal_fold parse error_text handlers handler m q
      parsed named found =
    let read = unmarshal_raw-query equal_fold q named in ground (arith, parsed, named, found, read)

query_json-coded :
    {T : Type 0} (encode : T → Option Json) (query : AsyncQuery T) (d : Json)
    → encode query.query_data ≡ some d
    → query_json encode query
      ≡ some (marshal_query (record { resource = query.resource; query_data = d }))
unfolding query_json
query_json-coded encode query d e = ground (arith, e)

-- The answer to a query comes back to the caller that asked. A caller whose reply listener is enabled
-- and primed sends a query that is JSON, within the size limit and taken by the brokers, to a service
-- with a handler for its resource. The service's listener calls the handler with the query's data and
-- commits after it has published one message, to the caller's reply topic, if the handler's result is
-- JSON. When the caller's reply listener routes that message, whatever the router did for other
-- correlation ids in the meantime and even if a second reply follows, `RequestReply` returns what the
-- handler did: nil as nil, a value as its JSON, an error or a panic as that error. It is assumed that
-- encoding/json reads back the query and the error message that it wrote.
pub query_answered :
    {T R : Type 0} (encode : T → Option Json) (encode_result : R → Option Json)
    (render : Json → String) (parse : String → Option Json) (error_message : String → Option String)
    (equal_fold : String → String → Bool) (error_text : DecodeError → String)
    (cfg responder : Config) (sends sends_reply : Message → Option String) (ready : Option Bool)
    (handlers : String → Option (QueryHandler R)) (handler : QueryHandler R) (id : String)
    (query : AsyncQuery T) (d : Json) (target : String) (deadline : Option ℤ) (elapsed : ℕ)
    (os : List Operation) (late : ReplyPayload) (r : ReplyRouter)
    → encode query.query_data ≡ some d
    → query.resource ≢ ""
    → handlers query.resource ≡ some handler
    → id ≢ ""
    → topic_for_reply cfg ≢ ""
    → ((e : String) → error_message (render (error_json e)) ≡ some e)
    → IsValid r
    → AllOther id os
    → cfg.disable_reply_listener ≡ false
    → target ≢ ""
    → await_reply_ready ready ≡ true
    → let q : AsyncQuery Json = record { resource = query.resource; query_data = d } in
      let body = render (marshal_query q) in
      let m = query_message cfg id target body query.resource (timeout_ms deadline elapsed) in
      let asked : AsyncQuery (Option Json) = record {
        resource = query.resource;
        query_data = some d;
      } in
      let from = asker id (topic_for_reply cfg) in
      let end = invoke_handler (handler asked from) in
      parse body ≡ some (marshal_query q)
      → is_too_large cfg body ≡ false
      → sends m ≡ none
      → written_of encode_result render responder sends_reply end ≡ true
      → (a : Message) × (got : Awaited) × (process_query encode_result render responder sends_reply
            equal_fold parse error_text handlers m
          ≡ invokes asked from ∷ publishes a ∷ commits ∷ [])
        × (a.topic ≡ topic_for_reply cfg)
        × (let s =
              request_reply encode render cfg sends error_message ready id query target deadline
                elapsed
                (λ t. route id late (route_reply a (run os t)))
                false
                r in
            (s.published ≡ m ∷ []) × (s.answer ≡ awaited got))
        × Reads encode_result render end got
unfolding Carries header_value query_message query_headers lookup insert String_discrete
query_answered encode encode_result render parse error_message equal_fold error_text cfg responder
      sends sends_reply ready handlers handler id query d target deadline elapsed os late r coded
      named found id_named topic_named reads valid all enabled aimed primed parsed small sent
      written =
    let q : AsyncQuery Json = record { resource = query.resource; query_data = d } in
    let asked : AsyncQuery (Option Json) = record {
      resource = query.resource;
      query_data = some d;
    } in
    let topic = topic_for_reply cfg in
    let (a, (answered, to, p, routes, read)) =
      carried encode_result render responder sends_reply error_message id topic
        (invoke_handler (handler asked (asker id topic))) reads id_named topic_named written in
    let m =
      query_message cfg id target (render (marshal_query q)) query.resource
        (timeout_ms deadline elapsed) in
    let (published, answer_is) =
      request_reply-sends encode render cfg sends error_message ready id query target deadline
        elapsed (λ t. route id late (route_reply a (run os t))) r (marshal_query q)
        (query_json-coded encode query d coded) enabled aimed primed small sent in
    (
      a,
      reading error_message p,
      process_query-handled encode_result render responder sends_reply equal_fold parse error_text
            handlers handler m q parsed named found
          ∙ ap (λ es. invokes asked (asker id topic) ∷ es) answered,
      to,
      (
        published,
        answer_is
            ∙ ap awaited (
                rw (routes (run os (register id r).0))
                  (reply_round_trip error_message id os p late r valid all)),
      ),
      read,
    )
