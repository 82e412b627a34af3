-- ===== src/Kafka/Gateway/Requests.antt =====
-- internal/kafka/gateway.go and eventbus.go: the limit on what is published, and what `RequestReply`
-- leaves in the reply router.
use reactive_commons_go.Base.{
  ℕ, ◌≡◌, ◌≢◌, inl, inr, refl, String, Bool, true, false, not, ◌||◌, [], ◌∷◌, Option, none, some,
  arith, is_empty, if◌then◌else◌, Bool-cases, Option-cases, All,
}
use reactive_commons_go.Base.Dict.{lookup}
use reactive_commons_go.Base.Int.{ℤ, pos, ltb_ℤ}
use reactive_commons_go.Async.{AsyncQuery, DomainEvent, Notification, Command}
use reactive_commons_go.Async.JsonValue.{Json}
use reactive_commons_go.ReplyRouter.{ReplyRouter, register, await_reply}
use reactive_commons_go.ReplyRouter.Delivery.{
  deregister-gone, deregister-other, register-other, await_reply-channels,
}
use reactive_commons_go.Rabbit.Converter.{query_json}
use reactive_commons_go.Kafka.Config.{Config}
use reactive_commons_go.Kafka.Gateway.{
  Message, byte_length, is_too_large, publish_envelope, emit, emit_notification, send_command,
  request_reply, await_reply_ready, query_message, timeout_ms, Asked,
}

-- The message's value is no longer than `MaxMessageBytes`.
abbrev pub Fits : Config → Message → Type 0
Fits cfg m = ltb_ℤ cfg.max_message_bytes (pos (byte_length m.value)) ≡ false

-- What keeps `RequestReply` from registering.
abbrev pub is_blocked : Config → Option Bool → String → Bool
is_blocked cfg ready target =
    cfg.disable_reply_listener || (is_empty target || not (await_reply_ready ready))

module _ {T : Type 0} (encode : T → Option Json) (render : Json → String) (cfg : Config)
    (sends : Message → Option String) (limited : ltb_ℤ (pos 0) cfg.max_message_bytes ≡ true) where
  publish_envelope-Fits :
      (v : Option Json) (message : String → Message)
      → ((body : String) → (message body).value ≡ body)
      → All (Fits cfg) (publish_envelope encode render cfg sends v message).published
  unfolding publish_envelope
  publish_envelope-Fits none message same = tt
  publish_envelope-Fits (some v) message same = elim (Bool-cases (is_too_large cfg (render v))) [
    | inl big ↦ rw big tt
    | inr small ↦ rw small (rw (same (render v)) (ground (arith, limited, small)), tt)
  ]

  module _ (error_message : String → Option String) (ready : Option Bool) (id : String)
      (query : AsyncQuery T) (target : String) (deadline : Option ℤ) (elapsed : ℕ)
      (between : ReplyRouter → ReplyRouter) (done : Bool) (r : ReplyRouter) where
    abbrev asked : Asked
    unfolding request_reply
    asked =
        request_reply encode render cfg sends error_message ready id query target deadline elapsed
          between done r

    published_none : query_json encode query ≡ none → asked.published ≡ []
    unfolding request_reply
    published_none e = ground (arith, e)

    published_some :
        (v : Json)
        → query_json encode query ≡ some v
        → asked.published ≡ (
            if is_blocked cfg ready target || is_too_large cfg (render v)
            then []
            else query_message cfg id target (render v) query.resource (timeout_ms deadline elapsed)
              ∷ [])
    unfolding request_reply
    published_some v e = ground (arith, e)

    request_reply-Fits : All (Fits cfg) asked.published
    unfolding query_message
    request_reply-Fits = elim (Option-cases (query_json encode query)) [
      | inl e ↦ rw (published_none e) tt
      | inr (v, e) ↦
          elim (Bool-cases (is_blocked cfg ready target || is_too_large cfg (render v))) [
            | inl kept ↦ rw (published_some v e) (rw kept tt)
            | inr sent ↦ rw (published_some v e) (rw sent (ground (arith, limited, sent), tt))
          ]
    ]

  -- With a positive `MaxMessageBytes`, no event, notification, command or query is published whose
  -- value is longer.
  pub requests-Fits :
      (fresh : String) (event : DomainEvent T) (fresh' : String) (n : Notification T)
      (cmd : Command T) (error_message : String → Option String) (ready : Option Bool) (id : String)
      (query : AsyncQuery T) (target : String) (deadline : Option ℤ) (elapsed : ℕ)
      (between : ReplyRouter → ReplyRouter) (done : Bool) (r : ReplyRouter)
      → All (Fits cfg) (emit encode render cfg sends fresh event).published
        × All (Fits cfg) (emit_notification encode render cfg sends fresh' n).published
        × All (Fits cfg) (send_command encode render cfg sends cmd target).published
        × All
            (Fits cfg)
            (request_reply encode render cfg sends error_message ready id query target deadline
              elapsed between done r).published
  unfolding emit emit_notification send_command asked
  requests-Fits fresh event fresh' n cmd error_message ready id query target deadline elapsed
        between done r =
      (
        publish_envelope-Fits _ _ (λ body. refl),
        publish_envelope-Fits _ _ (λ body. refl),
        elim (Bool-cases (is_empty target)) [
          | inl e ↦ rw e tt
          | inr aimed ↦ elim (Bool-cases (is_empty cmd.name)) [
            | inl e ↦ rw aimed (rw e tt)
            | inr named ↦ rw aimed (rw named (publish_envelope-Fits _ _ (λ body. refl)))
          ]
        ],
        request_reply-Fits error_message ready id query target deadline elapsed between done r,
      )

-- `RequestReply` never leaves its correlation id in the router, and takes nobody else's. Without a
-- reply listener, a target, or a reply consumer that is primed before the context ends, it registers
-- and publishes nothing; else, whether the query cannot be marshalled or published or is too large, is
-- answered, or times out, its entry is gone when the call returns, and the entry of any other id is as
-- it was, if the others left that one alone in the meantime.
pub request_reply-unregisters :
    {T : Type 0} (encode : T → Option Json) (render : Json → String) (cfg : Config)
    (sends : Message → Option String) (error_message : String → Option String) (ready : Option Bool)
    (id : String) (query : AsyncQuery T) (target : String) (deadline : Option ℤ) (elapsed : ℕ)
    (between : ReplyRouter → ReplyRouter) (done : Bool) (r : ReplyRouter)
    → let asked =
        request_reply encode render cfg sends error_message ready id query target deadline elapsed
          between done r in
      (is_blocked cfg ready target ≡ true → (asked.router ≡ r) × (asked.published ≡ []))
      × (is_blocked cfg ready target ≡ false
          → (lookup id asked.router.channels ≡ none)
            × ((k : String)
                → k ≢ id
                → ((s : ReplyRouter) → lookup k (between s).channels ≡ lookup k s.channels)
                → lookup k asked.router.channels ≡ lookup k r.channels))
unfolding request_reply
request_reply-unregisters encode render cfg sends error_message ready id query target deadline
      elapsed between done r =
    let u = between (register id r).0 in
    let v = (await_reply error_message (register id r).1 done u).0 in
    let read = await_reply-channels error_message (register id r).1 done u in
    (
      λ g. (ground (arith, g), ground (arith, g)),
      λ g. (
        ground (
          arith,
          g,
          deregister-gone id (register id r).0,
          deregister-gone id u,
          deregister-gone id v,
        ),
        λ k n keep. ground (
          arith,
          g,
          n,
          read,
          keep (register id r).0,
          register-other id k r n,
          deregister-other id k (register id r).0 n,
          deregister-other id k u n,
          deregister-other id k v n,
        ),
      ),
    )
