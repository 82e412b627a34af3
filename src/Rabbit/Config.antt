-- ===== src/Rabbit/Config.antt =====
-- internal/rabbit/config.go: what the transport is configured with, the TLS settings and the logger
-- left out. Durations are in nanoseconds.
pub mod Samples
use reactive_commons_go.Base.{String, Bool}
use reactive_commons_go.Base.Int.{ℤ}

pub record Config : Type 0 where
  pub host : String
  pub port : ℤ
  pub username : String
  pub password : String
  pub vhost : String
  pub app_name : String
  pub connection_name : String
  pub domain_events_exchange : String
  pub direct_messages_exchange : String
  pub global_reply_exchange : String
  pub prefetch_count : ℤ
  pub reply_timeout : ℤ
  pub write_timeout : ℤ
  pub persistent_events : Bool
  pub persistent_commands : Bool
  pub persistent_queries : Bool
  pub with_dlq_retry : Bool
  pub retry_delay : ℤ
  pub queue_type : String
