-- ===== src/Kafka/Queries/Answers.antt =====
-- internal/kafka/querylistener.go: what a query is answered with, and when it is committed.
use reactive_commons_go.Base.{
  ◌≡◌, ◌≢◌, ◌⊎◌, inl, inr, refl, String, Bool, true, false, ◌||◌, List, [], ◌∷◌, ◌++◌, Option, none,
  some, arith, is_empty, String_discrete, Bool-cases, Option-cases,
}
use reactive_commons_go.Base.Dict.{Dict, insert, lookup}
use reactive_commons_go.Async.{From, RawEnvelope}
use reactive_commons_go.Async.Headers.{correlation_id, reply_error, completion_only_signal}
use reactive_commons_go.Async.JsonValue.{Json}
use reactive_commons_go.Envelope.{Decoded, decoded, refused, DecodeError, unmarshal_raw}
use reactive_commons_go.Kafka.Config.{Config}
use reactive_commons_go.Kafka.Gateway.{
  Message, reply, error_reply, has_routing, error_json, reply_headers,
}
use reactive_commons_go.Kafka.Queries.{
  Effect, invokes, commits, Result, result, error, invoke_handler, header_value, from_of,
  all_published, QueryHandler, reject, answer, process_query, query_of, no_resource,
}

-- One message, which goes to the asker's reply topic with its correlation id.
abbrev pub Sends : From → List Message → Type 0
Sends from ms =
    (m : Message) × (ms ≡ m ∷ [])
    × (m.topic ≡ from.reply_id)
    × (m.key ≡ from.correlation_id)
    × (header_value m correlation_id ≡ from.correlation_id)

-- Answers of a query that has, or has not, reply metadata; there is none if `written` is false.
abbrev pub Replies : From → Bool → List Message → Type 0
Replies from written ms =
    ((has_routing from ≡ false) × (ms ≡ []))
    ⊎ ((has_routing from ≡ true) × (written ≡ true) × Sends from ms)
    ⊎ ((has_routing from ≡ true) × (written ≡ false) × (ms ≡ []))

-- Whether the result is JSON, as nil always is.
abbrev pub is_written : {R : Type 0} → (R → Option Json) → Option R → Bool
is_written encode none = true
is_written encode (some value) = elim (encode value) [ none ↦ false | some _ ↦ true ]

abbrev pub answer_to : From → String → Dict String → Message
answer_to from body headers = record {
  topic = from.reply_id;
  key = from.correlation_id;
  value = body;
  headers = headers;
}

abbrev pub error_answer : (Json → String) → Config → From → String → Message
unfolding insert
error_answer render cfg from e =
    answer_to from (render (error_json e)) (insert reply_error "true" (reply_headers cfg from))

abbrev pub nil_answer : Config → From → Message
unfolding insert
nil_answer cfg from =
    answer_to from "null" (insert completion_only_signal "true" (reply_headers cfg from))

abbrev pub value_answer : (Json → String) → Config → From → Json → Message
unfolding insert
value_answer render cfg from v = answer_to from (render v) (reply_headers cfg from)

module _ {R : Type 0} (encode : R → Option Json) (render : Json → String) (cfg : Config)
    (sends : Message → Option String) where
  error_reply-Replies :
      (from : From) (e : String)
      → Replies from true (error_reply encode render cfg sends e from).published
  unfolding error_reply header_value String_discrete insert lookup
  error_reply-Replies from e = elim (Bool-cases (has_routing from)) [
    | inl h ↦
        inr (inl (h, refl, (error_answer render cfg from e, ground (arith, h), refl, refl, refl)))
    | inr h ↦ inl (h, ground (arith, h))
  ]

  reply-Replies :
      (from : From) (r : Option R)
      → Replies from (is_written encode r) (reply encode render cfg sends r from).published
  unfolding reply header_value String_discrete insert lookup
  reply-Replies from none = elim (Bool-cases (has_routing from)) [
    | inl h ↦ inr (inl (h, refl, (nil_answer cfg from, ground (arith, h), refl, refl, refl)))
    | inr h ↦ inl (h, ground (arith, h))
  ]
  reply-Replies from (some value) = elim (Bool-cases (has_routing from)) [
    | inl h ↦ elim (Option-cases (encode value)) [
      | inl e ↦ inr (inr (h, ground (arith, e), ground (arith, h, e)))
      | inr (v, e) ↦ inr (
          inl (
            h,
            ground (arith, e),
            (value_answer render cfg from v, ground (arith, h, e), refl, refl, refl),
          ))
    ]
    | inr h ↦ inl (h, ground (arith, h))
  ]

  reject-Replies :
      (from : From) (e : String)
      → (ms : List Message) × Replies from true ms
        × (reject encode render cfg sends from e ≡ all_published ms ++ (commits ∷ []))
  unfolding reject error_reply
  reject-Replies from e =
      elim (Bool-cases (is_empty from.reply_id || is_empty from.correlation_id)) [
        | inl h ↦ ([], inl (ground (arith, h), refl), ground (arith, h))
        | inr h ↦ (
          (error_reply encode render cfg sends e from).published,
          error_reply-Replies from e,
          ground (arith, h),
        )
      ]

  -- Whether a handler's end can be written as JSON.
  abbrev pub written_of : Result R → Bool
  written_of (result r) = is_written encode r
  written_of (error _) = true

  answer-Replies :
      (from : From) (r : Result R)
      → (ms : List Message) × Replies from (written_of r) ms
        × (answer encode render cfg sends from r ≡ all_published ms ++ (commits ∷ []))
  unfolding answer
  answer-Replies from (result r) =
      ((reply encode render cfg sends r from).published, reply-Replies from r, refl)
  answer-Replies from (error e) =
      ((error_reply encode render cfg sends e from).published, error_reply-Replies from e, refl)

  module _ (equal_fold : String → String → Bool) (parse : String → Option Json)
      (error_text : DecodeError → String) (handlers : String → Option (QueryHandler R)) where
    abbrev pub value_of : Message → Decoded RawEnvelope
    value_of m = unmarshal_raw equal_fold (parse m.value)

    -- A query that is no envelope with a resource, one without a handler, and one that is handled.
    pub Answered : Message → List Effect → Type 0
    Answered m es =
        (((e : DecodeError) × (value_of m ≡ refused e))
            ⊎ ((raw : RawEnvelope) × (value_of m ≡ decoded raw) × (raw.resource ≡ "")))
          × ((ms : List Message) × Replies (from_of m) true ms
              × (es ≡ all_published ms ++ (commits ∷ [])))
        ⊎ ((raw : RawEnvelope) × (value_of m ≡ decoded raw)
            × (raw.resource ≢ "")
            × (handlers raw.resource ≡ none)
            × (es ≡ commits ∷ []))
        ⊎ ((raw : RawEnvelope) × (handler : QueryHandler R) × (value_of m ≡ decoded raw)
            × (raw.resource ≢ "")
            × (handlers raw.resource ≡ some handler)
            × ((ms : List Message) × Replies (from_of m)
                  (written_of (invoke_handler (handler (query_of raw) (from_of m)))) ms
                × (es ≡ invokes (query_of raw) (from_of m) ∷ (all_published ms ++ (commits ∷ [])))))

    refused-Answered :
        (m : Message) (e : DecodeError)
        → value_of m ≡ refused e
        → Answered m (process_query encode render cfg sends equal_fold parse error_text handlers m)
    unfolding Answered process_query
    refused-Answered m e h =
        let (ms, replied, same) = reject-Replies (from_of m) (error_text e) in
        inl (inl (e, h), (ms, replied, ground (arith, h, same)))

    decoded-Answered :
        (m : Message) (raw : RawEnvelope)
        → value_of m ≡ decoded raw
        → Answered m (process_query encode render cfg sends equal_fold parse error_text handlers m)
    unfolding Answered process_query
    decoded-Answered m raw h = elim (String_discrete raw.resource "") [
      | yes empty ↦
          let (ms, replied, same) = reject-Replies (from_of m) no_resource in
          inl (inr (raw, h, empty), (ms, replied, ground (arith, h, empty, same)))
      | no named ↦ elim (Option-cases (handlers raw.resource)) [
        | inl f ↦ inr (inl (raw, h, named, f, ground (arith, h, named, f)))
        | inr (handler, f) ↦
            let (ms, replied, same) =
              answer-Replies (from_of m) (invoke_handler (handler (query_of raw) (from_of m))) in
            inr (inr (raw, handler, h, named, f, (ms, replied, ground (arith, h, named, f, same))))
      ]
    ]

    answered :
        (m : Message) (d : Decoded RawEnvelope)
        → value_of m ≡ d
        → Answered m (process_query encode render cfg sends equal_fold parse error_text handlers m)
    answered m (refused e) h = refused-Answered m e h
    answered m (decoded raw) h = decoded-Answered m raw h

    -- Every query is committed, once and last, however it goes. A handler is called at most once, and
    -- at most one reply is published, which goes to the query's reply topic and carries its correlation
    -- id. A query with both of these that is no envelope with a resource, or whose handler fails or
    -- panics, is answered; so is one whose handler returns nil or a value that is JSON. A query without
    -- a handler is not.
    pub process_query-Answered :
        (m : Message)
        → Answered m (process_query encode render cfg sends equal_fold parse error_text handlers m)
    process_query-Answered m = answered m (value_of m) refl
