-- ===== src/Kafka/Listener.antt =====
-- internal/kafka/eventlistener.go and commandlistener.go: one message, from its bytes to its commit.
-- What it causes is a list of effects in their order. The handler of attempt `i` ends as `handler i`,
-- the context ends in the wait before it if `cancelled i`, and the dead letter topic takes a message
-- if `dlq_takes` it. A value is the JSON value it holds, `none` where it is not JSON.
pub mod Commit
mod Samples
use Prim.Native.String.{◌++◌ as append}
use reactive_commons_go.Base.{
  ℕ, zero, suc, ◌+◌, ◌-◌, String, Bool, true, false, ◌&&◌, ◌||◌, List, [], ◌∷◌, ◌++◌, Option, none,
  some, eqb, if◌then◌else◌, is_empty,
}
use reactive_commons_go.Base.Int.{ℤ, pos, negsuc, leb_ℤ, pos_part}
use reactive_commons_go.Async.{DomainEvent, Command, RawEnvelope}
use reactive_commons_go.Async.JsonValue.{Json}
use reactive_commons_go.Envelope.{
  Decoded, decoded, refused, DecodeError, not_decoded, missing_fields, unmarshal_raw,
}
use reactive_commons_go.Kafka.Config.{Config}
use reactive_commons_go.Kafka.Backoff.{retry_backoff}

-- What the `x-dlq-reason` header says.
pub data Reason : Type 0 where
  decode_failed : DecodeError → Reason
  handler_failed : String → Reason
  retries_exhausted : Reason

pub data Effect : Type 0 where
  waits : ℤ → Effect
  invokes : ℕ → Effect
  -- the attempts and the reason, and whether the topic took the message
  dead_letters : ℕ → Reason → Bool → Effect
  commits : Effect

-- How a user's handler ends; a panic carries its value as text.
pub data Outcome : Type 0 where
  returns : Outcome
  fails panics : String → Outcome

-- `invokeHandler`: the error, if any. `kind` is "kafka: " or "kafka: command ".
unfoldable pub invoke_handler : String → Outcome → Option String
invoke_handler kind returns = none
invoke_handler kind (fails e) = some e
invoke_handler kind (panics v) = some (append kind (append "handler panic: " v))

pub data LoopEnd : Type 0 where
  succeeded stopped : LoopEnd
  exhausted : Option String → LoopEnd

abbrev pub attempts_of : Config → ℕ
attempts_of cfg =
    if leb_ℤ cfg.max_retry_attempts (pos 0) then 1 else pos_part cfg.max_retry_attempts

-- `dlq.publish` and the commit that follows if it succeeds.
abbrev pub dead_letter : Bool → ℕ → Reason → List Effect
dead_letter dlq_takes attempts reason =
    dead_letters attempts reason dlq_takes ∷ (if dlq_takes then commits ∷ [] else [])

abbrev pub reason_of : Option String → Reason
reason_of none = retries_exhausted
reason_of (some e) = handler_failed e

abbrev pub wait_before : Config → ℕ → List Effect
wait_before cfg zero = []
wait_before cfg (suc i) =
    waits (retry_backoff (pos i) cfg.retry_initial_delay cfg.retry_max_delay) ∷ []

abbrev pub is_stopped : (ℕ → Bool) → ℕ → Bool
is_stopped cancelled zero = false
is_stopped cancelled (suc i) = cancelled (suc i)

-- What follows the loop.
unfoldable pub conclude : Config → Bool → LoopEnd → List Effect
conclude cfg dlq_takes succeeded = commits ∷ []
conclude cfg dlq_takes stopped = []
conclude cfg dlq_takes (exhausted last_err) =
    dead_letter dlq_takes (attempts_of cfg) (reason_of last_err)

module _ (kind : String) (cfg : Config) (handler : ℕ → Outcome) (cancelled : ℕ → Bool) where
  -- The loop over the attempts, `left` of them from `attempt` on.
  unfoldable pub attempt_loop : ℕ → ℕ → Option String → List Effect × LoopEnd
  unfolding invoke_handler retry_backoff
  attempt_loop zero attempt last_err = ([], exhausted last_err)
  attempt_loop (suc left) attempt last_err =
      if is_stopped cancelled attempt
      then (wait_before cfg attempt, stopped)
      else elim (invoke_handler kind (handler attempt)) [
        | none ↦ (wait_before cfg attempt ++ (invokes attempt ∷ []), succeeded)
        | some e ↦
            let (effects, end) = attempt_loop left (suc attempt) (some e) in
            (wait_before cfg attempt ++ (invokes attempt ∷ effects), end)
      ]

  -- The part of `processMessage` from the loop on.
  unfoldable pub process_handled : Bool → List Effect
  unfolding attempt_loop conclude
  process_handled dlq_takes =
      let (effects, end) = attempt_loop (attempts_of cfg) 0 none in
      effects ++ conclude cfg dlq_takes end

-- The event that is passed on; its data is the decoded value.
abbrev pub event_of : RawEnvelope → DomainEvent (Option Json)
event_of raw = record { name = raw.name; event_id = raw.event_id; payload = raw.payload }

abbrev pub command_of : RawEnvelope → Command (Option Json)
command_of raw = record { name = raw.name; command_id = raw.command_id; payload = raw.payload }

module _ (equal_fold : String → String → Bool) (cfg : Config) (cancelled : ℕ → Bool)
    (dlq_takes : Bool) where
  -- `eventListener.processMessage`
  unfoldable pub process_event :
      (DomainEvent (Option Json) → ℕ → Outcome) → Option Json → List Effect
  unfolding unmarshal_raw process_handled
  process_event handler value = elim (unmarshal_raw equal_fold value) [
    | refused e ↦ dead_letter dlq_takes 0 (decode_failed e)
    | decoded raw ↦ process_handled "kafka: " cfg (handler (event_of raw)) cancelled dlq_takes
  ]

  -- `commandListener.processMessage`; `handlers` is `CommandHandler` of the registry.
  unfoldable pub process_command :
      (String → Option (Command (Option Json) → ℕ → Outcome)) → Option Json → List Effect
  unfolding unmarshal_raw process_handled
  process_command handlers value = elim (unmarshal_raw equal_fold value) [
    | refused e ↦ dead_letter dlq_takes 0 (decode_failed e)
    | decoded raw ↦
        if is_empty raw.name
        then dead_letter dlq_takes 0 (decode_failed missing_fields)
        else elim (handlers raw.name) [
          | none ↦ commits ∷ []
          | some handler ↦
              process_handled "kafka: command " cfg (handler (command_of raw)) cancelled dlq_takes
        ]
  ]
