-- ===== src/Rabbit/Gateway/Requests.antt =====
-- internal/rabbit/gateway.go: what `RequestReply` leaves in the reply router, and when it sends.
use reactive_commons_go.Base.{
  ℕ, ◌≡◌, ◌≢◌, String, Bool, true, false, not, ◌||◌, [], Option, none, arith, is_empty,
}
use reactive_commons_go.Base.Dict.{lookup}
use reactive_commons_go.Base.Int.{ℤ}
use reactive_commons_go.Async.{AsyncQuery}
use reactive_commons_go.Async.JsonValue.{Json}
use reactive_commons_go.ReplyRouter.{ReplyRouter, register, await_reply}
use reactive_commons_go.ReplyRouter.Delivery.{
  deregister-gone, deregister-other, register-other, await_reply-channels,
}
use reactive_commons_go.Rabbit.Config.{Config}
use reactive_commons_go.Rabbit.Gateway.{Sent, request_reply, refused, no_reply_queue}

-- `RequestReply` never leaves its correlation id in the router: whether the query cannot be marshalled
-- or sent, is answered, or times out, its entry is gone when the call returns, and the entry of any
-- other id is as it was, if the others left that one alone in the meantime; without a reply queue
-- nothing is registered, and nothing sent.
pub request_reply-deregisters :
    {T : Type 0} (encode : T → Option Json) (render : Json → String) (cfg : Config)
    (sends : Sent → Option String) (error_message : String → Option String) (reply_queue : String)
    (has_router : Bool) (id : String) (query : AsyncQuery T) (target : String) (deadline : Option ℤ)
    (elapsed : ℕ) (between : ReplyRouter → ReplyRouter) (done : Bool) (r : ReplyRouter)
    → let asked =
        request_reply encode render cfg sends error_message reply_queue has_router id query target
          deadline elapsed between done r in
      ((is_empty reply_queue || not has_router) ≡ true
        → (asked.router ≡ r) × (asked.sent ≡ []) × (asked.answer ≡ refused no_reply_queue))
      × ((is_empty reply_queue || not has_router) ≡ false
          → (lookup id asked.router.channels ≡ none)
            × ((k : String)
                → k ≢ id
                → ((s : ReplyRouter) → lookup k (between s).channels ≡ lookup k s.channels)
                → lookup k asked.router.channels ≡ lookup k r.channels))
unfolding request_reply
request_reply-deregisters encode render cfg sends error_message reply_queue has_router id query
      target deadline elapsed between done r =
    let u = between (register id r).0 in
    let v = (await_reply error_message (register id r).1 done u).0 in
    let read = await_reply-channels error_message (register id r).1 done u in
    (
      λ g. (ground (arith, g), ground (arith, g), ground (arith, g)),
      λ g. (
        ground (
          arith,
          g,
          deregister-gone id (register id r).0,
          deregister-gone id u,
          deregister-gone id v,
        ),
        λ k n keep. ground (
          arith,
          g,
          n,
          read,
          keep (register id r).0,
          register-other id k r n,
          deregister-other id k (register id r).0 n,
          deregister-other id k u n,
          deregister-other id k v n,
        ),
      ),
    )
