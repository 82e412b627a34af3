-- ===== src/Kafka/Listener/Samples.antt =====
-- Runs of the Kafka listeners on concrete messages.
use reactive_commons_go.Base.{
  ℕ, zero, suc, String, ◌≡◌, refl, Bool, true, false, [], ◌∷◌, Option, some, String_discrete,
}
use reactive_commons_go.Base.Int.{pos}
use reactive_commons_go.Async.{Command, RawEnvelope}
use reactive_commons_go.Async.JsonValue.{Json, text, object, member, no_members}
use reactive_commons_go.Async.Wire.{unmarshal_envelope}
use reactive_commons_go.Envelope.{DecodeError, decoded, refused, unmarshal_raw}
use reactive_commons_go.Kafka.Config.Samples.{shop}
use reactive_commons_go.Kafka.Backoff.{retry_backoff, doubled}
use reactive_commons_go.Kafka.Listener.{
  waits, invokes, commits, Outcome, returns, fails, process_event, process_handled, attempt_loop,
  invoke_handler, conclude, dead_letter, decode_failed,
}
use reactive_commons_go.Kafka.Listener.Commit.{Ends, process_event-Ends}

abbrev exact : String → String → Bool
exact _ _ = false

abbrev running : ℕ → Bool
running _ = false

abbrev value : Option Json
value = some (object (member "name" (text "pay") no_members))

-- The first two attempts fail.
abbrev third_time : ℕ → Outcome
third_time zero = fails "busy"
third_time (suc zero) = fails "busy"
third_time (suc (suc _)) = returns

retried :
    process_event exact shop running true (λ _. third_time) value
    ≡ invokes 0 ∷ waits (pos 100) ∷ invokes 1 ∷ waits (pos 200) ∷ invokes 2 ∷ commits ∷ []
unfolding process_event process_handled attempt_loop invoke_handler conclude retry_backoff doubled
    unmarshal_raw unmarshal_envelope String_discrete
retried = refl

process_event-Ends_example :
    ((e : DecodeError)
      → unmarshal_raw exact value ≡ refused e
      → process_event exact shop running true (λ _. third_time) value
        ≡ dead_letter true 0 (decode_failed e))
    × ((raw : RawEnvelope)
        → unmarshal_raw exact value ≡ decoded raw
        → Ends "kafka: " shop third_time running true
            (process_event exact shop running true (λ _. third_time) value))
process_event-Ends_example = process_event-Ends exact shop running true (λ _. third_time) value

abbrev handlers : String → Option (Command (Option Json) → ℕ → Outcome)
handlers _ = some (λ _. third_time)
