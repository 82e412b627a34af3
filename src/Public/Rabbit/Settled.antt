-- ===== src/Public/Rabbit/Settled.antt =====
-- rabbit/config.go and builder.go: what `NewApplication` accepts, and that the defaults are settled.
use reactive_commons_go.Base.{
  zero, suc, String, ◌≡◌, ◌≢◌, ◌⊎◌, ◌↔◌, inl, inr, refl, sym, ◌∙◌, true, false, arith,
  String_discrete,
}
use text.Mathlib.TextEquality.{eq_iff}
use reactive_commons_go.Base.Int.{ℤ, pos, negsuc}
use reactive_commons_go.Rabbit.Config.{Config}
use reactive_commons_go.Public.{
  is_zero, or_number, or_text, or_number-twice, or_text-twice, or_text-keeps,
}
use reactive_commons_go.Public.Rabbit.{
  with_defaults, app_name_required, queue_type_refused, validate, made, refused, new_application,
  new_config_with_defaults,
}

is_zero_iff : (x : ℤ) → (is_zero x ≡ true) ↔ (x ≡ pos 0)
unfolding is_zero
is_zero_iff (pos zero) = (λ e. refl, λ e. refl)
is_zero_iff (pos (suc n)) = (λ e. ground (arith, e), λ e. ground (arith, e))
is_zero_iff (negsuc n) = (λ e. ground (arith, e), λ e. ground (arith, e))

-- A second call of `WithDefaults` changes nothing.
with_defaults-twice : (cfg : Config) → with_defaults (with_defaults cfg) ≡ with_defaults cfg
unfolding with_defaults
with_defaults-twice cfg = ground (
  arith,
  or_text-twice "localhost" cfg.host,
  or_number-twice (pos 5672) cfg.port (λ e. ground (arith, e)),
  or_text-twice "guest" cfg.username,
  or_text-twice "guest" cfg.password,
  or_text-twice "/" cfg.vhost,
  or_text-twice "domainEvents" cfg.domain_events_exchange,
  or_text-twice "directMessages" cfg.direct_messages_exchange,
  or_text-twice "globalReply" cfg.global_reply_exchange,
  or_number-twice (pos 250) cfg.prefetch_count (λ e. ground (arith, e)),
  or_number-twice (pos 15000000000) cfg.reply_timeout (λ e. ground (arith, e)),
  or_number-twice (pos 30000000000) cfg.write_timeout (λ e. ground (arith, e)),
  is_zero_iff cfg.retry_delay,
  is_zero_iff (pos 1000000000),
  or_text-twice "classic" cfg.queue_type,
  or_text-twice cfg.app_name cfg.connection_name,
)

-- The queue types that a user may give.
abbrev pub IsAllowed : String → Type 0
IsAllowed q = (q ≡ "") ⊎ (q ≡ "classic") ⊎ (q ≡ "quorum")

IsAllowed-cases : (q : String) → IsAllowed q ⊎ ¬ IsAllowed q
IsAllowed-cases q = elim (String_discrete q "") [
  | yes a ↦ inl (inl a)
  | no a ↦ elim (String_discrete q "classic") [
    | yes b ↦ inl (inr (inl b))
    | no b ↦ elim (String_discrete q "quorum") [
      | yes c ↦ inl (inr (inr c))
      | no c ↦ inr (λ k. elim k [ inl x ↦ a x | inr (inl x) ↦ b x | inr (inr x) ↦ c x ])
    ]
  ]
]

-- What the application gets for a given configuration: defaults do not change it further, its durable
-- queues have a type that RabbitMQ knows, and its retry delay is a second unless the retry is on and
-- the given delay is not 0; then it is that one, a negative one too.
pub IsSettled : Config → Config → Type 0
IsSettled cfg c =
    (with_defaults c ≡ c)
    × ((c.queue_type ≡ "classic") ⊎ (c.queue_type ≡ "quorum"))
    × ((cfg.with_dlq_retry ≡ false) ⊎ (cfg.retry_delay ≡ pos 0) → c.retry_delay ≡ pos 1000000000)
    × (cfg.with_dlq_retry ≡ true → cfg.retry_delay ≢ pos 0 → c.retry_delay ≡ cfg.retry_delay)

settled_type :
    (cfg : Config)
    → IsAllowed cfg.queue_type
    → ((with_defaults cfg).queue_type ≡ "classic") ⊎ ((with_defaults cfg).queue_type ≡ "quorum")
unfolding with_defaults or_text
settled_type cfg (inl e) = inl (ground (arith, e))
settled_type cfg (inr (inl e)) = inl (ground (arith, e))
settled_type cfg (inr (inr e)) = inr (
    or_text-keeps "classic" cfg.queue_type
      (λ z. let f : "quorum" ≡ "" = sym e ∙ z in ground (arith, eq_iff "quorum" "", f))
    ∙ e)

settled_delay :
    (cfg : Config)
    → ((cfg.with_dlq_retry ≡ false) ⊎ (cfg.retry_delay ≡ pos 0)
        → (with_defaults cfg).retry_delay ≡ pos 1000000000)
      × (cfg.with_dlq_retry ≡ true
          → cfg.retry_delay ≢ pos 0
          → (with_defaults cfg).retry_delay ≡ cfg.retry_delay)
unfolding with_defaults
settled_delay cfg = (
  λ h. ground (arith, h, is_zero_iff cfg.retry_delay),
  λ on n. ground (arith, on, n, is_zero_iff cfg.retry_delay),
)

settled : (cfg : Config) → IsAllowed cfg.queue_type → IsSettled cfg (with_defaults cfg)
unfolding IsSettled
settled cfg allowed = (
  with_defaults-twice cfg,
  settled_type cfg allowed,
  (settled_delay cfg).0,
  (settled_delay cfg).1,
)

-- `NewApplication` accepts a configuration exactly if it has an application name and its queue type is
-- empty, "classic" or "quorum"; then the application gets it with its defaults, which further defaults
-- do not change and whose queue type is one of the two. Its retry delay is a second if the retry is off
-- or the delay is 0, and else the given one, which may be negative: nothing refuses that. Else the error names the field that is wrong, the application name first.
pub new_application-IsSettled :
    (cfg : Config)
    → ((cfg.app_name ≢ "")
        × IsAllowed cfg.queue_type
        × (new_application cfg ≡ made (with_defaults cfg))
        × IsSettled cfg (with_defaults cfg))
      ⊎ ((cfg.app_name ≡ "") × (new_application cfg ≡ refused app_name_required))
      ⊎ ((cfg.app_name ≢ "")
          × ¬ IsAllowed cfg.queue_type
          × (new_application cfg ≡ refused (queue_type_refused cfg.queue_type)))
unfolding new_application validate with_defaults or_text
new_application-IsSettled cfg = elim (String_discrete cfg.app_name "") [
  | yes unnamed ↦ inr (inl (unnamed, ground (arith, unnamed)))
  | no named ↦ elim (IsAllowed-cases cfg.queue_type) [
    | inl allowed ↦ inl (named, allowed, ground (arith, named, allowed), settled cfg allowed)
    | inr other ↦ inr (inr (named, other, ground (arith, named, other)))
  ]
]

-- What `NewConfigWithDefaults` returns lacks only the application name, which is then also the
-- connection's.
new_config_with_defaults-settled :
    (app : String)
    → app ≢ ""
    → new_application (record new_config_with_defaults { app_name = app })
      ≡ made (record new_config_with_defaults { app_name = app; connection_name = app })
unfolding new_application validate with_defaults or_text or_number String_discrete
new_config_with_defaults-settled app n = ground (arith, n)
