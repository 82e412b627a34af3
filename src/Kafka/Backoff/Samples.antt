-- ===== src/Kafka/Backoff/Samples.antt =====
-- Runs of `retryBackoff`.
use reactive_commons_go.Base.{◌*◌, ◌^◌, ◌≡◌, refl, min, arith}
use reactive_commons_go.Base.Int.{pos}
use reactive_commons_go.Kafka.Backoff.{retry_backoff, doubled, retry_backoff_lem}

third_retry : retry_backoff (pos 2) (pos 100) (pos 30000) ≡ pos 400
unfolding retry_backoff doubled
third_retry = refl

retry_backoff_lem_example :
    retry_backoff (pos 70) (pos 1000) (pos 30000) ≡ pos (min (1000 * 2 ^ 70) 30000)
retry_backoff_lem_example =
    retry_backoff_lem 70 1000 30000 (ground arith) (ground arith) (ground arith)
