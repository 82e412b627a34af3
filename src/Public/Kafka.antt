-- ===== src/Public/Kafka.antt =====
-- kafka/config.go and builder.go. `KafkaConfig` is the record of Kafka/Config. `fresh` is the result of
-- `uuid.NewString`, and `require_all` and `snappy` are the numbers of kafka-go's constants. An instance
-- id has ASCII characters.
pub mod Settled
use Prim.Native.String.{◌++◌ as append}
use reactive_commons_go.Base.{
  ℕ, zero, suc, String, Bool, true, false, not, ◌&&◌, List, [], ◌∷◌, Option, none, some, ltb,
  if◌then◌else◌, is_empty,
}
use reactive_commons_go.Base.Int.{ℤ, pos, leb_ℤ, ltb_ℤ}
use reactive_commons_go.Kafka.Config.{Config}
use reactive_commons_go.Kafka.Gateway.{byte_length}
use reactive_commons_go.Public.{or_number, or_text}

-- The first `n` characters.
unfoldable pub take_text : ℕ → String → String
take_text zero s = ""
take_text (suc n) String.[] = ""
take_text (suc n) (String.◌∷◌ c s) = String.◌∷◌ c (take_text n s)

unfoldable pub short_id : String → String
unfolding byte_length take_text
short_id id = if ltb 8 (byte_length id) then take_text 8 id else id

abbrev pub or_function : (String → String) → Option (String → String) → Option (String → String)
or_function d none = some d
or_function d (some f) = some f

unfoldable pub default_client_id : String → String → String → String
unfolding short_id
default_client_id app_name instance_id client_id =
    if is_empty client_id && not (is_empty app_name)
    then append app_name (append "-" (short_id instance_id))
    else client_id

unfoldable pub apply_identity_defaults : String → Config → Config
unfolding or_text default_client_id
apply_identity_defaults fresh cfg =
    let instance_id = or_text fresh cfg.instance_id in
    record cfg {
      instance_id = instance_id;
      client_id = default_client_id cfg.app_name instance_id cfg.client_id;
    }

unfoldable pub apply_routing_defaults : Config → Config
unfolding or_text
apply_routing_defaults cfg = record cfg {
  topic_name_func = or_function (λ n. append cfg.app_name (append "." n)) cfg.topic_name_func;
  notification_topic_name_func =
      or_function (λ n. append cfg.app_name (append "." n)) cfg.notification_topic_name_func;
  commands_topic_name_func =
      or_function (λ app. append app ".commands") cfg.commands_topic_name_func;
  queries_topic_name_func = or_function (λ app. append app ".queries") cfg.queries_topic_name_func;
  replies_topic_name_func = or_function (λ app. append app ".replies") cfg.replies_topic_name_func;
  consumer_group_prefix = or_text cfg.app_name cfg.consumer_group_prefix;
}

pub data ConfigError : Type 0 where
  app_name_required brokers_required : ConfigError
  max_retry_attempts_refused retry_initial_delay_refused retry_max_delay_refused : ConfigError
  handler_timeout_refused max_message_bytes_refused : ConfigError
  default_partitions_refused default_replication_factor_refused : ConfigError

abbrev pub has_none : List String → Bool
has_none [] = true
has_none (_ ∷ _) = false

unfoldable pub validate : Config → Option ConfigError
validate cfg =
    if is_empty cfg.app_name
    then some app_name_required
    else if has_none cfg.bootstrap_brokers
    then some brokers_required
    else if leb_ℤ cfg.max_retry_attempts (pos 0)
    then some max_retry_attempts_refused
    else if leb_ℤ cfg.retry_initial_delay (pos 0)
    then some retry_initial_delay_refused
    else if ltb_ℤ cfg.retry_max_delay cfg.retry_initial_delay
    then some retry_max_delay_refused
    else if leb_ℤ cfg.handler_timeout (pos 0)
    then some handler_timeout_refused
    else if leb_ℤ cfg.max_message_bytes (pos 0)
    then some max_message_bytes_refused
    else if leb_ℤ cfg.default_partitions (pos 0)
    then some default_partitions_refused
    else if leb_ℤ cfg.default_replication_factor (pos 0)
    then some default_replication_factor_refused
    else none

pub data Made : Type 0 where
  made : Config → Made
  refused : ConfigError → Made

module _ (require_all snappy : ℤ) (fresh : String) where
  unfoldable pub new_config_with_defaults : Config
  new_config_with_defaults = record {
    app_name = "";
    bootstrap_brokers = [];
    client_id = "";
    instance_id = fresh;
    topic_name_func = none;
    notification_topic_name_func = none;
    commands_topic_name_func = none;
    queries_topic_name_func = none;
    replies_topic_name_func = none;
    consumer_group_prefix = "";
    disable_reply_listener = false;
    producer_acks = require_all;
    producer_batch_timeout = pos 10000000;
    producer_compression = snappy;
    max_message_bytes = pos 1000000;
    handler_timeout = pos 30000000000;
    max_retry_attempts = pos 5;
    retry_initial_delay = pos 1000000000;
    retry_max_delay = pos 30000000000;
    dlq_suffix = ".dlq";
    allow_auto_create_topics = false;
    default_partitions = pos 3;
    default_replication_factor = pos 1;
    consumer_session_timeout = pos 30000000000;
    consumer_heartbeat_interval = pos 3000000000;
    auto_generate_missing_event_id = true;
  }

  -- What `WithDefaults` does after the two helpers.
  unfoldable pub apply_number_defaults : Config → Config
  unfolding or_number or_text
  apply_number_defaults cfg = record cfg {
    producer_acks = or_number require_all cfg.producer_acks;
    producer_batch_timeout = or_number (pos 10000000) cfg.producer_batch_timeout;
    producer_compression = or_number snappy cfg.producer_compression;
    max_message_bytes = or_number (pos 1000000) cfg.max_message_bytes;
    handler_timeout = or_number (pos 30000000000) cfg.handler_timeout;
    max_retry_attempts = or_number (pos 5) cfg.max_retry_attempts;
    retry_initial_delay = or_number (pos 1000000000) cfg.retry_initial_delay;
    retry_max_delay = or_number (pos 30000000000) cfg.retry_max_delay;
    dlq_suffix = or_text ".dlq" cfg.dlq_suffix;
    default_partitions = or_number (pos 3) cfg.default_partitions;
    default_replication_factor = or_number (pos 1) cfg.default_replication_factor;
    consumer_session_timeout = or_number (pos 30000000000) cfg.consumer_session_timeout;
    consumer_heartbeat_interval = or_number (pos 3000000000) cfg.consumer_heartbeat_interval;
  }

  unfoldable pub with_defaults : Config → Config
  unfolding apply_identity_defaults apply_routing_defaults apply_number_defaults
  with_defaults cfg =
      apply_number_defaults (apply_routing_defaults (apply_identity_defaults fresh cfg))

  -- `NewApplication`, by the configuration that the application gets.
  unfoldable pub new_application : Config → Made
  unfolding with_defaults validate
  new_application cfg =
      let c = with_defaults cfg in elim (validate c) [ none ↦ made c | some e ↦ refused e ]
