-- ===== src/Kafka/DeadLetter.antt =====
-- internal/kafka/dlq.go: the message that is published for one whose retries are exhausted. `now` is
-- the current time as text. kafka-go's headers are a list, in which a key may occur more than once.
pub mod Headers
mod Samples
use Prim.Native.String.{◌++◌ as append}
use reactive_commons_go.Base.{ℕ, String, List, [], ◌∷◌}
use reactive_commons_go.Base.Dict.{Dict, insert}
use reactive_commons_go.Base.Decimal.{format_nat}
use reactive_commons_go.Kafka.Config.{Config}
use reactive_commons_go.Kafka.Gateway.{Message}

-- The loop over the original headers.
unfoldable pub collect_headers : List (String × String) → Dict String → Dict String
unfolding insert
collect_headers [] m = m
collect_headers ((k, v) ∷ hs) m = collect_headers hs (insert k v m)

module _ (cfg : Config) (now : String) where
  unfoldable pub dlq_headers : String → Message → ℕ → String → Dict String
  unfolding insert collect_headers format_nat
  dlq_headers orig_topic orig attempts reason = insert "x-dlq-source-service" cfg.app_name (
      insert "x-dlq-first-seen" now (
        insert "x-dlq-origin-topic" orig_topic (
          insert "x-dlq-attempts" (format_nat attempts)
            (insert "x-dlq-reason" reason (collect_headers orig.headers [])))))

  unfoldable pub publish_dlq : String → Message → ℕ → String → Message
  unfolding dlq_headers
  publish_dlq orig_topic orig attempts reason = record {
    topic = append orig_topic cfg.dlq_suffix;
    key = orig.key;
    value = orig.value;
    headers = dlq_headers orig_topic orig attempts reason;
  }
