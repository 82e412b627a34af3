-- ===== src/Kafka/DeadLetter/Samples.antt =====
-- A dead letter of internal/kafka/dlq.go.
use Prim.Native.String.{◌++◌ as append}
use reactive_commons_go.Base.{◌≡◌, String, [], ◌∷◌, some}
use reactive_commons_go.Base.Dict.{lookup}
use reactive_commons_go.Base.Decimal.{format_nat}
use reactive_commons_go.Kafka.Config.Samples.{shop}
use reactive_commons_go.Kafka.Gateway.{Message}
use reactive_commons_go.Kafka.DeadLetter.{publish_dlq}
use reactive_commons_go.Kafka.DeadLetter.Headers.{last_value, IsAdded, publish_dlq-headers}

-- A message that was dead-lettered before, with a header that occurs twice.
abbrev again : Message
again = record {
  topic = "shop.paid";
  key = "e-1";
  value = "{}";
  headers = ("x-dlq-reason", "busy") ∷ ("trace", "1") ∷ ("trace", "2") ∷ [];
}

abbrev letter : Message
letter = publish_dlq shop "2024-01-01T00:00:00Z" "shop.paid" again 3 "down"

publish_dlq-headers_example :
    (letter.topic ≡ append "shop.paid" shop.dlq_suffix)
    × (letter.key ≡ again.key)
    × (letter.value ≡ again.value)
    × (lookup "x-dlq-reason" letter.headers ≡ some "down")
    × (lookup "x-dlq-attempts" letter.headers ≡ some (format_nat 3))
    × (lookup "x-dlq-origin-topic" letter.headers ≡ some "shop.paid")
    × (lookup "x-dlq-first-seen" letter.headers ≡ some "2024-01-01T00:00:00Z")
    × (lookup "x-dlq-source-service" letter.headers ≡ some shop.app_name)
    × ((k : String) → ¬ IsAdded k → lookup k letter.headers ≡ last_value k again.headers)
publish_dlq-headers_example =
    publish_dlq-headers shop "2024-01-01T00:00:00Z" "shop.paid" again 3 "down"
