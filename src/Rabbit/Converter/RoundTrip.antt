-- ===== src/Rabbit/Converter/RoundTrip.antt =====
-- internal/rabbit/converter.go: a message that is written is read back.
use reactive_commons_go.Base.{
  String, Bool, Option, some, ◌>>=◌, ◌≡◌, ap, arith, String_discrete, Option-cases, inl, inr,
}
use reactive_commons_go.Async.{DomainEvent, Command, AsyncQuery}
use reactive_commons_go.Async.JsonValue.{Json}
use reactive_commons_go.Async.Wire.{
  unmarshal_envelope, marshal_event, marshal_command, marshal_query,
}
use reactive_commons_go.Rabbit.Converter.{
  event_json, command_json, query_json, read_payload, read_domain_event, read_command, read_query,
}

module _ {T : Type 0} (zero_value : T) (encode : T → Option Json) (decode : Json → Option T)
    (equal_fold : String → String → Bool)
    -- a value of type `T` that marshals is unmarshalled to itself, and only the zero value is null
    (codes : (d : T) (v : Json)
      → encode d ≡ some v
      → read_payload zero_value decode (some v) ≡ some d) where
  read_event :
      (e : DomainEvent T) (d : Json)
      → encode e.payload ≡ some d
      → read_domain_event zero_value decode equal_fold
          (some (marshal_event (record { name = e.name; event_id = e.event_id; payload = d })))
        ≡ some e
  unfolding read_domain_event unmarshal_envelope marshal_event String_discrete
  read_event e d c = ap (λ p. p >>= λ d'. some (record e { payload = d' })) (codes e.payload d c)

  read_command_ :
      (e : Command T) (d : Json)
      → encode e.payload ≡ some d
      → read_command zero_value decode equal_fold (
          some (marshal_command (record { name = e.name; command_id = e.command_id; payload = d })))
        ≡ some e
  unfolding read_command unmarshal_envelope marshal_command String_discrete
  read_command_ e d c = ap (λ p. p >>= λ d'. some (record e { payload = d' })) (codes e.payload d c)

  read_query_ :
      (q : AsyncQuery T) (d : Json)
      → encode q.query_data ≡ some d
      → read_query zero_value decode equal_fold
          (some (marshal_query (record { resource = q.resource; query_data = d })))
        ≡ some q
  unfolding read_query unmarshal_envelope marshal_query String_discrete
  read_query_ q d c =
      ap (λ p. p >>= λ d'. some (record q { query_data = d' })) (codes q.query_data d c)

  -- What `ToMessage` writes for an event, a command or a query, the reader of that kind reads back as
  -- the message that was written, payload included, for any payload type whose values are decoded as
  -- they were encoded.
  pub message_round_trip :
      (e : DomainEvent T) (c : Command T) (q : AsyncQuery T) (v : Json)
      → (event_json encode e ≡ some v
          → read_domain_event zero_value decode equal_fold (some v) ≡ some e)
        × (command_json encode c ≡ some v
            → read_command zero_value decode equal_fold (some v) ≡ some c)
        × (query_json encode q ≡ some v → read_query zero_value decode equal_fold (some v) ≡ some q)
  unfolding event_json command_json query_json
  message_round_trip e c q v = (
    λ h. elim (Option-cases (encode e.payload)) [
      | inl n ↦ absurd (ground (arith, n, h))
      | inr (d, k) ↦ ground (arith, read_event e d k, h, k)
    ],
    λ h. elim (Option-cases (encode c.payload)) [
      | inl n ↦ absurd (ground (arith, n, h))
      | inr (d, k) ↦ ground (arith, read_command_ c d k, h, k)
    ],
    λ h. elim (Option-cases (encode q.query_data)) [
      | inl n ↦ absurd (ground (arith, n, h))
      | inr (d, k) ↦ ground (arith, read_query_ q d k, h, k)
    ],
  )
