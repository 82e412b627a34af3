-- ===== src/Public/Kafka/Settled.antt =====
-- kafka/config.go and builder.go: what `NewApplication` accepts, that the defaults are settled, and that
-- they leave the names of topics and groups as internal/kafka/topology.go has them.
use Prim.Native.String.{◌++◌ as append}
use text.Mathlib.TextLemmas.{append-eq-nil_iff}
use reactive_commons_go.Base.{
  String, ◌≡◌, ◌≢◌, ◌⊎◌, ◌↔◌, inl, inr, refl, Bool, true, false, not, ◌&&◌, Option, none, some,
  arith, is_empty, String_discrete, Bool-cases, Option-cases,
}
use reactive_commons_go.Base.Int.{ℤ, pos, ltb_ℤ}
use reactive_commons_go.Kafka.Config.{Config}
use reactive_commons_go.Kafka.Topology.{
  topic_for_event, topic_for_notification, topic_for_command, topic_for_query, topic_for_reply,
  group_prefix, group_id_for_event, group_id_for_command, group_id_for_query,
}
use reactive_commons_go.Public.{
  or_number, or_text, or_number-twice, or_text-twice, or_text-other, or_number-positive,
}
use reactive_commons_go.Public.Kafka.{
  or_function, default_client_id, short_id, apply_identity_defaults, apply_routing_defaults,
  apply_number_defaults, with_defaults, validate, ConfigError, made, refused, new_application,
  has_none,
}

default_client_id-twice :
    (app instance_id other client : String)
    → default_client_id app other (default_client_id app instance_id client)
      ≡ default_client_id app instance_id client
unfolding default_client_id
default_client_id-twice app instance_id other client = elim (String_discrete app "") [
  | yes unnamed ↦ ground (arith, unnamed)
  | no named ↦
      let filled : append app (append "-" (short_id instance_id)) ≢ "" =
        λ e. named (append-eq-nil_iff.0 e).0 in
      ground (arith, named, filled)
]

or_function-twice :
    (d d' : String → String) (f : Option (String → String))
    → or_function d' (or_function d f) ≡ or_function d f
or_function-twice d d' none = refl
or_function-twice d d' (some f) = refl

-- Defaults leave the names that are made from a configuration as they were.
pub KeepsNames : Config → Config → Type 0
KeepsNames cfg c =
    ((name : String) → topic_for_event c name ≡ topic_for_event cfg name)
    × ((name : String) → topic_for_notification c name ≡ topic_for_notification cfg name)
    × ((app : String) → topic_for_command c app ≡ topic_for_command cfg app)
    × ((app : String) → topic_for_query c app ≡ topic_for_query cfg app)
    × (topic_for_reply c ≡ topic_for_reply cfg)
    × ((name : String) → group_id_for_event c name ≡ group_id_for_event cfg name)
    × (group_id_for_command c ≡ group_id_for_command cfg)
    × (group_id_for_query c ≡ group_id_for_query cfg)

-- What a user must give: an application name and a broker, none of six numbers below 0, and retry
-- delays that are ordered once 0 stands for its default.
pub is_usable : Config → Bool
is_usable cfg =
    not (is_empty cfg.app_name)
    && (not (has_none cfg.bootstrap_brokers)
        && (not (ltb_ℤ cfg.max_retry_attempts (pos 0))
            && (not (ltb_ℤ cfg.retry_initial_delay (pos 0))
                && (not (
                      ltb_ℤ (or_number (pos 30000000000) cfg.retry_max_delay)
                        (or_number (pos 1000000000) cfg.retry_initial_delay))
                    && (not (ltb_ℤ cfg.handler_timeout (pos 0))
                        && (not (ltb_ℤ cfg.max_message_bytes (pos 0))
                            && (not (ltb_ℤ cfg.default_partitions (pos 0))
                                && not (ltb_ℤ cfg.default_replication_factor (pos 0)))))))))

module _ (require_all snappy : ℤ) (acks : require_all ≢ pos 0) (compressed : snappy ≢ pos 0) where
  -- A second call of `WithDefaults` changes nothing, though it would take another id.
  with_defaults-twice :
      (fresh other : String) (cfg : Config)
      → fresh ≢ ""
      → with_defaults require_all snappy other (with_defaults require_all snappy fresh cfg)
        ≡ with_defaults require_all snappy fresh cfg
  unfolding with_defaults apply_identity_defaults apply_routing_defaults apply_number_defaults
  with_defaults-twice fresh other cfg n = ground (
    arith,
    or_text-other fresh other cfg.instance_id n,
    default_client_id-twice cfg.app_name (or_text fresh cfg.instance_id)
        (or_text other (or_text fresh cfg.instance_id)) cfg.client_id,
    or_text-twice cfg.app_name cfg.consumer_group_prefix,
    or_number-twice require_all cfg.producer_acks acks,
    or_number-twice (pos 10000000) cfg.producer_batch_timeout (λ e. ground (arith, e)),
    or_number-twice snappy cfg.producer_compression compressed,
    or_number-twice (pos 1000000) cfg.max_message_bytes (λ e. ground (arith, e)),
    or_number-twice (pos 30000000000) cfg.handler_timeout (λ e. ground (arith, e)),
    or_number-twice (pos 5) cfg.max_retry_attempts (λ e. ground (arith, e)),
    or_number-twice (pos 1000000000) cfg.retry_initial_delay (λ e. ground (arith, e)),
    or_number-twice (pos 30000000000) cfg.retry_max_delay (λ e. ground (arith, e)),
    or_text-twice ".dlq" cfg.dlq_suffix,
    or_number-twice (pos 3) cfg.default_partitions (λ e. ground (arith, e)),
    or_number-twice (pos 1) cfg.default_replication_factor (λ e. ground (arith, e)),
    or_number-twice (pos 30000000000) cfg.consumer_session_timeout (λ e. ground (arith, e)),
    or_number-twice (pos 3000000000) cfg.consumer_heartbeat_interval (λ e. ground (arith, e)),
  )

  with_defaults-KeepsNames :
      (fresh : String) (cfg : Config) → KeepsNames cfg (with_defaults require_all snappy fresh cfg)
  unfolding KeepsNames with_defaults apply_identity_defaults apply_routing_defaults
      apply_number_defaults topic_for_event topic_for_notification topic_for_command topic_for_query
      topic_for_reply group_prefix group_id_for_event group_id_for_command group_id_for_query
      or_text
  with_defaults-KeepsNames fresh cfg = (
    λ name. ground arith,
    λ name. ground arith,
    λ app. ground arith,
    λ app. ground arith,
    ground arith,
    λ name. ground arith,
    ground arith,
    ground arith,
  )

  validate-is_usable :
      (fresh : String) (cfg : Config)
      → (validate (with_defaults require_all snappy fresh cfg) ≡ none) ↔ (is_usable cfg ≡ true)
  unfolding validate with_defaults apply_identity_defaults apply_routing_defaults
      apply_number_defaults is_usable
  validate-is_usable fresh cfg = (
    λ e. ground (
      arith,
      e,
      or_number-positive 5 cfg.max_retry_attempts (ground arith),
      or_number-positive 1000000000 cfg.retry_initial_delay (ground arith),
      or_number-positive 30000000000 cfg.handler_timeout (ground arith),
      or_number-positive 1000000 cfg.max_message_bytes (ground arith),
      or_number-positive 3 cfg.default_partitions (ground arith),
      or_number-positive 1 cfg.default_replication_factor (ground arith),
    ),
    λ e. ground (
      arith,
      e,
      or_number-positive 5 cfg.max_retry_attempts (ground arith),
      or_number-positive 1000000000 cfg.retry_initial_delay (ground arith),
      or_number-positive 30000000000 cfg.handler_timeout (ground arith),
      or_number-positive 1000000 cfg.max_message_bytes (ground arith),
      or_number-positive 3 cfg.default_partitions (ground arith),
      or_number-positive 1 cfg.default_replication_factor (ground arith),
    ),
  )

  -- `NewApplication` accepts a configuration exactly if it is usable: it has an application name
  -- and a broker, neither its retry attempts, initial retry delay, handler timeout and maximal
  -- message size nor its default partitions and replication factor are below 0, and its maximal
  -- retry delay is no shorter than the initial one once 0 stands for its default. Its other
  -- numbers, such as the consumer's session timeout and heartbeat and the producer's batch
  -- timeout, may be anything. The application then gets it with its defaults, which a second
  -- application of them would not change, and which leave the names of all topics and of the
  -- shared consumer groups as the given configuration makes them. It is assumed that the id that
  -- uuid returns is not empty, and that kafka-go's two constants are not 0.
  pub new_application-KeepsNames :
      (fresh : String) (cfg : Config)
      → fresh ≢ ""
      → let c = with_defaults require_all snappy fresh cfg in
        ((is_usable cfg ≡ true)
          × (new_application require_all snappy fresh cfg ≡ made c)
          × ((other : String) → with_defaults require_all snappy other c ≡ c)
          × KeepsNames cfg c)
        ⊎ ((is_usable cfg ≡ false)
            × (e : ConfigError) × (new_application require_all snappy fresh cfg ≡ refused e))
  unfolding new_application
  new_application-KeepsNames fresh cfg n =
      elim (Option-cases (validate (with_defaults require_all snappy fresh cfg))) [
        | inl valid ↦ inl (
          (validate-is_usable fresh cfg).0 valid,
          ground (arith, valid),
          λ other. with_defaults-twice fresh other cfg n,
          with_defaults-KeepsNames fresh cfg,
        )
        | inr (e, invalid) ↦ inr (
          elim (Bool-cases (is_usable cfg)) [
            | inr unusable ↦ unusable
            | inl usable ↦
                let valid = (validate-is_usable fresh cfg).1 usable in
                ground (arith, valid, invalid)
          ],
          e,
          ground (arith, invalid),
        )
      ]
