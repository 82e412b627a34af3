-- ===== src/Rabbit/Config/Samples.antt =====
-- A configuration for the runs of the modules about internal/rabbit.
use reactive_commons_go.Base.{true, false}
use reactive_commons_go.Base.Int.{pos}
use reactive_commons_go.Rabbit.Config.{Config}

abbrev pub shop : Config
shop = record {
  host = "localhost";
  port = pos 5672;
  username = "guest";
  password = "guest";
  vhost = "/";
  app_name = "shop";
  connection_name = "shop";
  domain_events_exchange = "domainEvents";
  direct_messages_exchange = "directMessages";
  global_reply_exchange = "globalReply";
  prefetch_count = pos 250;
  reply_timeout = pos 15000000000;
  write_timeout = pos 30000000000;
  persistent_events = true;
  persistent_commands = true;
  persistent_queries = false;
  with_dlq_retry = true;
  retry_delay = pos 1000000000;
  queue_type = "quorum";
}
