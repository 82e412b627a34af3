-- ===== src/Kafka/Config.antt =====
-- internal/kafka/config.go: what the transport is configured with, the TLS and SASL settings, the
-- logger, the tracer and the meter left out. Durations are in nanoseconds; a nil function is `none`.
pub mod Samples
use reactive_commons_go.Base.{String, Bool, List, Option}
use reactive_commons_go.Base.Int.{ℤ}

pub record Config : Type 0 where
  pub app_name : String
  pub bootstrap_brokers : List String
  pub client_id : String
  pub instance_id : String
  pub topic_name_func : Option (String → String)
  pub notification_topic_name_func : Option (String → String)
  pub commands_topic_name_func : Option (String → String)
  pub queries_topic_name_func : Option (String → String)
  pub replies_topic_name_func : Option (String → String)
  pub consumer_group_prefix : String
  pub disable_reply_listener : Bool
  pub producer_acks : ℤ
  pub producer_batch_timeout : ℤ
  pub producer_compression : ℤ
  pub max_message_bytes : ℤ
  pub handler_timeout : ℤ
  pub max_retry_attempts : ℤ
  pub retry_initial_delay : ℤ
  pub retry_max_delay : ℤ
  pub dlq_suffix : String
  pub allow_auto_create_topics : Bool
  pub default_partitions : ℤ
  pub default_replication_factor : ℤ
  pub consumer_session_timeout : ℤ
  pub consumer_heartbeat_interval : ℤ
  pub auto_generate_missing_event_id : Bool
