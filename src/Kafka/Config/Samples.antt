-- ===== src/Kafka/Config/Samples.antt =====
-- A configuration for the runs of the Kafka modules.
use reactive_commons_go.Base.{true, false, [], ◌∷◌, none}
use reactive_commons_go.Base.Int.{pos}
use reactive_commons_go.Kafka.Config.{Config}

abbrev pub shop : Config
shop = record {
  app_name = "shop";
  bootstrap_brokers = "broker:9092" ∷ [];
  client_id = "shop-1";
  instance_id = "i1";
  topic_name_func = none;
  notification_topic_name_func = none;
  commands_topic_name_func = none;
  queries_topic_name_func = none;
  replies_topic_name_func = none;
  consumer_group_prefix = "";
  disable_reply_listener = false;
  producer_acks = pos 1;
  producer_batch_timeout = pos 10000000;
  producer_compression = pos 2;
  max_message_bytes = pos 1000;
  handler_timeout = pos 30000000000;
  max_retry_attempts = pos 3;
  retry_initial_delay = pos 100;
  retry_max_delay = pos 1000;
  dlq_suffix = ".dlq";
  allow_auto_create_topics = true;
  default_partitions = pos 3;
  default_replication_factor = pos 1;
  consumer_session_timeout = pos 30000000000;
  consumer_heartbeat_interval = pos 3000000000;
  auto_generate_missing_event_id = true;
}
