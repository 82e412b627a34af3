-- ===== src/Envelope.antt =====
-- internal/envelope/codec.go: the decoding of a Kafka message. A body is the JSON value it holds,
-- `none` where it is not JSON; the decoding of a payload type is a parameter.
pub mod RoundTrip
mod Samples
use reactive_commons_go.Base.{
  String, Bool, true, false, List, [], ◌∷◌, Option, none, some, ◌==◌, if◌then◌else◌, is_empty, ◌&&◌,
}
use reactive_commons_go.Async.{RawEnvelope}
use reactive_commons_go.Async.JsonValue.{Json}
use reactive_commons_go.Async.Wire.{unmarshal_envelope}

pub data DecodeError : Type 0 where
  not_decoded missing_fields : DecodeError

pub data Decoded (A : Type 0) : Type 0 where
  decoded : A → Decoded A
  refused : DecodeError → Decoded A

unfoldable pub unmarshal_raw : (String → String → Bool) → Option Json → Decoded RawEnvelope
unfolding unmarshal_envelope
unmarshal_raw equal_fold none = refused not_decoded
unmarshal_raw equal_fold (some v) = elim (unmarshal_envelope equal_fold v) [
  | none ↦ refused not_decoded
  | some e ↦ if is_empty e.name && is_empty e.resource then refused missing_fields else decoded e
]

-- `zero` is the zero value of `T`, and `decode` what `json.Unmarshal` reads into it.
unfoldable pub decode_data : {T : Type 0} → T → (Json → Option T) → Option Json → Decoded T
decode_data zero_value decode none = decoded zero_value
decode_data zero_value decode (some v) = elim (decode v) [
  | none ↦ refused not_decoded
  | some d ↦ decoded d
]
