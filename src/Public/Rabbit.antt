-- ===== src/Public/Rabbit.antt =====
-- rabbit/config.go and builder.go. `toInternalConfig` copies each field, so the public configuration is
-- the record of Rabbit/Config; the logger and the TLS settings are left out.
pub mod Settled
use reactive_commons_go.Base.{
  ℕ, String, Bool, true, false, not, ◌||◌, Option, none, some, eqb, ◌==◌, if◌then◌else◌, is_empty,
}
use reactive_commons_go.Base.Int.{pos}
use reactive_commons_go.Rabbit.Config.{Config}
use reactive_commons_go.Public.{is_zero, or_number, or_text}

unfoldable pub with_defaults : Config → Config
unfolding is_zero or_number or_text
with_defaults cfg = record cfg {
  host = or_text "localhost" cfg.host;
  port = or_number (pos 5672) cfg.port;
  username = or_text "guest" cfg.username;
  password = or_text "guest" cfg.password;
  vhost = or_text "/" cfg.vhost;
  domain_events_exchange = or_text "domainEvents" cfg.domain_events_exchange;
  direct_messages_exchange = or_text "directMessages" cfg.direct_messages_exchange;
  global_reply_exchange = or_text "globalReply" cfg.global_reply_exchange;
  prefetch_count = or_number (pos 250) cfg.prefetch_count;
  reply_timeout = or_number (pos 15000000000) cfg.reply_timeout;
  write_timeout = or_number (pos 30000000000) cfg.write_timeout;
  retry_delay =
      if not cfg.with_dlq_retry || is_zero cfg.retry_delay then pos 1000000000 else cfg.retry_delay;
  queue_type = or_text "classic" cfg.queue_type;
  connection_name = or_text cfg.app_name cfg.connection_name;
}

-- `NewConfigWithDefaults`
abbrev pub new_config_with_defaults : Config
new_config_with_defaults = record {
  host = "localhost";
  port = pos 5672;
  username = "guest";
  password = "guest";
  vhost = "/";
  app_name = "";
  connection_name = "";
  domain_events_exchange = "domainEvents";
  direct_messages_exchange = "directMessages";
  global_reply_exchange = "globalReply";
  prefetch_count = pos 250;
  reply_timeout = pos 15000000000;
  write_timeout = pos 30000000000;
  persistent_events = true;
  persistent_commands = true;
  persistent_queries = false;
  with_dlq_retry = false;
  retry_delay = pos 1000000000;
  queue_type = "classic";
}

pub data ConfigError : Type 0 where
  app_name_required : ConfigError
  queue_type_refused : String → ConfigError

unfoldable pub validate : Config → Option ConfigError
validate cfg =
    if is_empty cfg.app_name
    then some app_name_required
    else if is_empty cfg.queue_type || (cfg.queue_type == "classic" || cfg.queue_type == "quorum")
    then none
    else some (queue_type_refused cfg.queue_type)

pub data Made : Type 0 where
  made : Config → Made
  refused : ConfigError → Made

-- `NewApplication`, by the configuration that the application gets.
unfoldable pub new_application : Config → Made
unfolding with_defaults validate
new_application cfg =
    let c = with_defaults cfg in elim (validate c) [ none ↦ made c | some e ↦ refused e ]
