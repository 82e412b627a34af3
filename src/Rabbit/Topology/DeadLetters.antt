-- ===== src/Rabbit/Topology/DeadLetters.antt =====
-- internal/rabbit/topology.go: the retry loop of dead-lettered messages, and its delay.
use Prim.Native.String.{◌++◌ as append}
use reactive_commons_go.Base.{
  ℕ, ◌+◌, ◌-◌, ◌/◌, ◌<◌, ◌≤◌, ◌≡◌, refl, sym, ap, subst, inl, inr, String, Bool, true, false, List,
  [], ◌∷◌, Option, none, some, if◌then◌else◌, is_empty, arith, In, String_discrete,
}
use reactive_commons_go.Base.Dict.{Dict, insert, lookup}
use reactive_commons_go.Base.Int.{ℤ, pos, negsuc}
use reactive_commons_go.Rabbit.Config.{Config}
use reactive_commons_go.Rabbit.Topology.{
  Arg, text, int32_, Declaration, queue, binding, arg_dead_letter_exchange, merge, queue_args,
  durable_queue, direct_dlq_exchange, queries_queue, declare_commands_queue, declare_queries_queue,
  declare_direct_dlq_retry, message_ttl, unless_empty,
}

-- The declarations have a durable queue that dead-letters to an exchange.
pub DeadLetters : List Declaration → String → String → Type 0
DeadLetters ds q ex =
    (args : Dict Arg) × In (queue q true false false (some args)) ds
    × (lookup arg_dead_letter_exchange args ≡ some (text ex))

-- A TTL in milliseconds for a delay in nanoseconds: the same time, if it is not negative and is below
-- 2^31 ms (24.8 days).
pub Keeps : ℤ → ℤ → Type 0
Keeps delay ttl = (d : ℕ) → delay ≡ pos d → d / 1000000 < 2147483648 → ttl ≡ pos (d / 1000000)

-- And that queue does so once a message has waited in it for its `x-message-ttl`.
pub DeadLettersAfter : List Declaration → String → ℤ → String → Type 0
DeadLettersAfter ds q delay ex =
    (args : Dict Arg) × (ttl : ℤ) × In (queue q true false false (some args)) ds
    × (lookup arg_dead_letter_exchange args ≡ some (text ex))
    × (lookup "x-message-ttl" args ≡ some (int32_ ttl))
    × Keeps delay ttl

abbrev ttl_arg : Option ℤ → Dict Arg
ttl_arg none = []
ttl_arg (some t) = ("x-message-ttl", int32_ t) ∷ []

dead_letter_arg_of :
    (untyped : Bool) (kind ex : String) (ttl : Option ℤ)
    → (args : Dict Arg) × (unless_empty (
          merge
            (if untyped then [] else ("x-queue-type", text kind) ∷ [])
            ((arg_dead_letter_exchange, text ex) ∷ ttl_arg ttl))
        ≡ some args)
      × (lookup arg_dead_letter_exchange args ≡ some (text ex))
      × ((t : ℤ) → ttl ≡ some t → lookup "x-message-ttl" args ≡ some (int32_ t))
unfolding merge insert lookup String_discrete
dead_letter_arg_of true kind ex none = (_, refl, refl, λ t e. ground (arith, e))
dead_letter_arg_of true kind ex (some t) = (_, refl, refl, λ u e. ground (arith, e))
dead_letter_arg_of false kind ex none = (_, refl, refl, λ t e. ground (arith, e))
dead_letter_arg_of false kind ex (some t) = (_, refl, refl, λ u e. ground (arith, e))

dead_letter_arg :
    (cfg : Config) (ex : String) (ttl : Option ℤ)
    → (args : Dict Arg) × (queue_args cfg ((arg_dead_letter_exchange, text ex) ∷ ttl_arg ttl)
        ≡ some args)
      × (lookup arg_dead_letter_exchange args ≡ some (text ex))
      × ((t : ℤ) → ttl ≡ some t → lookup "x-message-ttl" args ≡ some (int32_ t))
unfolding queue_args
dead_letter_arg cfg ex ttl = dead_letter_arg_of (is_empty cfg.queue_type) cfg.queue_type ex ttl

In-DeadLetters :
    (cfg : Config) (ds : List Declaration) (q ex : String) (ttl : Option ℤ)
    → In (durable_queue cfg q ((arg_dead_letter_exchange, text ex) ∷ ttl_arg ttl)) ds
    → DeadLetters ds q ex
unfolding DeadLetters
In-DeadLetters cfg ds q ex ttl m =
    let (args, e, l, t) = dead_letter_arg cfg ex ttl in
    (args, subst (λ a. In (queue q true false false a) ds) e m, l)

message_ttl-Keeps : (cfg : Config) → Keeps cfg.retry_delay (message_ttl cfg)
unfolding Keeps message_ttl
message_ttl-Keeps cfg d e b = rw e (ground (arith, b))

In-DeadLettersAfter :
    (cfg : Config) (ds : List Declaration) (q ex : String)
    → In
        (durable_queue cfg q
          ((arg_dead_letter_exchange, text ex) ∷ ttl_arg (some (message_ttl cfg))))
        ds
    → DeadLettersAfter ds q cfg.retry_delay ex
unfolding DeadLettersAfter
In-DeadLettersAfter cfg ds q ex m =
    let (args, e, l, t) = dead_letter_arg cfg ex (some (message_ttl cfg)) in
    (
      args,
      message_ttl cfg,
      subst (λ a. In (queue q true false false a) ds) e m,
      l,
      t (message_ttl cfg) refl,
      message_ttl-Keeps cfg,
    )

when_on :
    (cfg : Config) (q ex : String)
    → cfg.with_dlq_retry ≡ true
    → durable_queue cfg q ((arg_dead_letter_exchange, text ex) ∷ [])
      ≡ durable_queue cfg q
          (if cfg.with_dlq_retry then (arg_dead_letter_exchange, text ex) ∷ [] else [])
when_on cfg q ex on =
    ap (λ b. durable_queue cfg q (if b then (arg_dead_letter_exchange, text ex) ∷ [] else []))
      (sym on)

-- The same for commands and queries: each queue dead-letters to the shared exchange, which hands the
-- message by the queue's routing key to the queue's own DLQ queue, and that dead-letters back, after
-- the same delay, to the exchange that commands and queries are published on.
pub direct_retry_loop :
    (cfg : Config) (routing_key : String)
    → cfg.with_dlq_retry ≡ true
    → let ds = declare_commands_queue cfg ∷ declare_direct_dlq_retry cfg cfg.app_name routing_key in
      let es =
        declare_queries_queue cfg ∷ declare_direct_dlq_retry cfg (queries_queue cfg) routing_key in
      (DeadLetters ds cfg.app_name (direct_dlq_exchange cfg)
        × In (binding (append cfg.app_name ".DLQ") (direct_dlq_exchange cfg) routing_key) ds
        × DeadLettersAfter ds
            (append cfg.app_name ".DLQ")
            cfg.retry_delay
            cfg.direct_messages_exchange)
      × (DeadLetters es (queries_queue cfg) (direct_dlq_exchange cfg)
          × In
              (binding (append (queries_queue cfg) ".DLQ") (direct_dlq_exchange cfg) routing_key)
              es
          × DeadLettersAfter es
              (append (queries_queue cfg) ".DLQ")
              cfg.retry_delay
              cfg.direct_messages_exchange)
unfolding declare_commands_queue declare_queries_queue declare_direct_dlq_retry
direct_retry_loop cfg routing_key on =
    let ds = declare_commands_queue cfg ∷ declare_direct_dlq_retry cfg cfg.app_name routing_key in
    let es =
      declare_queries_queue cfg ∷ declare_direct_dlq_retry cfg (queries_queue cfg) routing_key in
    (
      (
        In-DeadLetters cfg ds cfg.app_name (direct_dlq_exchange cfg) none
            (inl (when_on cfg cfg.app_name (direct_dlq_exchange cfg) on)),
        inr (inr (inr (inl refl))),
        In-DeadLettersAfter cfg ds (append cfg.app_name ".DLQ") cfg.direct_messages_exchange
            (inr (inr (inl refl))),
      ),
      (
        In-DeadLetters cfg es (queries_queue cfg) (direct_dlq_exchange cfg) none
            (inl (when_on cfg (queries_queue cfg) (direct_dlq_exchange cfg) on)),
        inr (inr (inr (inl refl))),
        In-DeadLettersAfter cfg es (append (queries_queue cfg) ".DLQ") cfg.direct_messages_exchange
            (inr (inr (inl refl))),
      ),
    )

-- From 2^31 ms to 2^32 ms the conversion to `int32` makes the TTL negative, and so it is for a negative
-- delay of a millisecond or more, up to 2^31 ms.
pub message_ttl-negative :
    (cfg : Config) (d : ℕ)
    → (cfg.retry_delay ≡ pos d
        → 2147483648 ≤ d / 1000000
        → d / 1000000 < 4294967296
        → (n : ℕ) × (message_ttl cfg ≡ negsuc n))
      × (cfg.retry_delay ≡ negsuc d
          → 1000000 ≤ d + 1
          → (d + 1) / 1000000 ≤ 2147483648
          → message_ttl cfg ≡ negsuc ((d + 1) / 1000000 - 1))
unfolding message_ttl
message_ttl-negative cfg d = (
  λ e b c. (4294967295 - d / 1000000, rw e (ground (arith, b, c))),
  λ e b c. rw e (ground (arith, b, c)),
)
