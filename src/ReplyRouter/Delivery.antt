-- ===== src/ReplyRouter/Delivery.antt =====
-- internal/replyrouter/replyrouter.go: a reply reaches the caller that registered its correlation id,
-- once, and nobody else.
use reactive_commons_go.Base.{
  Bool, ℕ, ◌<◌, ◌≡◌, ◌≢◌, inl, inr, String, false, List, [], ◌∷◌, Option, none, some, if◌then◌else◌,
  arith, ==_refl, ==→≡, String_discrete, Option-cases,
}
use reactive_commons_go.Base.Dict.{lookup, lookup-insert, lookup-erase}
use reactive_commons_go.ReplyRouter.{
  ReplyPayload, ReplyRouter, register, route, deregister, Awaited, handler_error, body, fails,
  await_reply,
}

-- The registered channels have been made, and no two correlation ids share one.
pub record IsValid (r : ReplyRouter) : Type 0 where
  pub made : (id : String) (ch : ℕ) → lookup id r.channels ≡ some ch → ch < r.fresh
  pub once :
      (id other : String) (ch : ℕ)
      → lookup id r.channels ≡ some ch
      → lookup other r.channels ≡ some ch
      → id ≡ other

-- What waits at a correlation id.
abbrev pub waiting : String → ReplyRouter → Option ReplyPayload
waiting id r = elim (lookup id r.channels) [ none ↦ none | some ch ↦ r.buffer ch ]

register-IsValid : (id : String) (r : ReplyRouter) → IsValid r → IsValid (register id r).0
unfolding register
register-IsValid id r h = record {
  made = λ k ch e. ground (arith, lookup-insert id k r.fresh r.channels, h.made k ch);
  once = λ k l ch e f. elim (String_discrete k l) [
    | yes g ↦ g
    | no g ↦ ground (
      arith,
      lookup-insert id k r.fresh r.channels,
      lookup-insert id l r.fresh r.channels,
      h.made k ch,
      h.made l ch,
      h.once k l ch,
      ==→≡ id k,
      ==→≡ id l,
    )
  ];
}

deregister-IsValid : (id : String) (r : ReplyRouter) → IsValid r → IsValid (deregister id r)
unfolding deregister
deregister-IsValid id r h = record {
  made = λ k ch e. ground (arith, lookup-erase id k r.channels, h.made k ch);
  once = λ k l ch e f.
      ground (arith, lookup-erase id k r.channels, lookup-erase id l r.channels, h.once k l ch);
}

route-channels :
    (id : String) (p : ReplyPayload) (r : ReplyRouter)
    → ((route id p r).channels ≡ r.channels) × ((route id p r).fresh ≡ r.fresh)
unfolding route
route-channels id p r = (ground arith, ground arith)

route-IsValid :
    (id : String) (p : ReplyPayload) (r : ReplyRouter) → IsValid r → IsValid (route id p r)
route-IsValid id p r h = record {
  made = λ k ch e. ground (arith, route-channels id p r, h.made k ch);
  once = λ k l ch e f. ground (arith, route-channels id p r, h.once k l ch);
}

-- Every operation keeps the channels of different correlation ids apart.
pub operations-IsValid :
    (id : String) (p : ReplyPayload) (r : ReplyRouter)
    → IsValid r
    → IsValid (register id r).0 × IsValid (route id p r) × IsValid (deregister id r)
operations-IsValid id p r h =
    (register-IsValid id r h, route-IsValid id p r h, deregister-IsValid id r h)

-- Replies to one correlation id do not touch what another one has: in a valid router a reply that is
-- routed to `id` changes nothing at any other id; at `id` the first reply stays and a later one is
-- dropped; and where nobody waits it changes nothing at all.
pub route-waiting :
    (id other : String) (p : ReplyPayload) (r : ReplyRouter)
    → IsValid r
    → (id ≢ other → waiting other (route id p r) ≡ waiting other r)
      × (waiting id r ≢ none → waiting id (route id p r) ≡ waiting id r)
      × (lookup id r.channels ≡ none → route id p r ≡ r)
      × ((ch : ℕ)
          → lookup id r.channels ≡ some ch
          → r.buffer ch ≡ none
          → waiting id (route id p r) ≡ some p)
unfolding route
route-waiting id other p r h = (
  λ n. elim (Option-cases (lookup id r.channels)) [
    | inl e ↦ ground arith
    | inr (ch, e) ↦ ground (arith, h.once id other ch)
  ],
  ground arith,
  λ e. ground arith,
  λ ch e f. ground arith,
)

pub deregister-gone : (id : String) (s : ReplyRouter) → lookup id (deregister id s).channels ≡ none
unfolding deregister
deregister-gone id s = ground (arith, lookup-erase id id s.channels, ==_refl id)

pub deregister-other :
    (id k : String) (s : ReplyRouter)
    → k ≢ id
    → lookup k (deregister id s).channels ≡ lookup k s.channels
unfolding deregister
deregister-other id k s n = ground (arith, lookup-erase id k s.channels, ==→≡ id k)

pub register-other :
    (id k : String) (r : ReplyRouter)
    → k ≢ id
    → lookup k (register id r).0.channels ≡ lookup k r.channels
unfolding register
register-other id k r n = ground (arith, lookup-insert id k r.fresh r.channels, ==→≡ id k)

pub await_reply-channels :
    (error_message : String → Option String) (ch : ℕ) (done : Bool) (s : ReplyRouter)
    → (await_reply error_message ch done s).0.channels ≡ s.channels
unfolding await_reply
await_reply-channels error_message ch done s = ground arith

-- What the other callers and the reply listener do in the meantime.
pub data Operation : Type 0 where
  registers deregisters : String → Operation
  routes : String → ReplyPayload → Operation

unfoldable pub key : Operation → String
key (registers id) = id
key (deregisters id) = id
key (routes id _) = id

unfoldable pub act : Operation → ReplyRouter → ReplyRouter
act (registers id) r = (register id r).0
act (deregisters id) r = deregister id r
act (routes id p) r = route id p r

unfoldable pub run : List Operation → ReplyRouter → ReplyRouter
run [] r = r
run (o ∷ os) r = run os (act o r)

pub data AllOther (id : String) : List Operation → Type 0 where
  none_left : AllOther id []
  and_other :
      (o : Operation) (os : List Operation) → key o ≢ id → AllOther id os → AllOther id (o ∷ os)

-- The caller of `id` waits on channel `ch`, which is empty.
pub record Waits (id : String) (ch : ℕ) (r : ReplyRouter) : Type 0 where
  pub valid : IsValid r
  pub own : lookup id r.channels ≡ some ch
  pub empty : r.buffer ch ≡ none

act-Waits :
    (id : String) (ch : ℕ) (o : Operation) (r : ReplyRouter)
    → key o ≢ id
    → Waits id ch r
    → Waits id ch (act o r)
unfolding act key register deregister route
act-Waits id ch (registers k) r n h = record {
  valid = register-IsValid k r h.valid;
  own = ground (arith, h.own, lookup-insert k id r.fresh r.channels, ==→≡ k id);
  empty = ground (arith, h.empty, h.valid.made id ch h.own);
}
act-Waits id ch (deregisters k) r n h = record {
  valid = deregister-IsValid k r h.valid;
  own = ground (arith, h.own, lookup-erase k id r.channels, ==→≡ k id);
  empty = h.empty;
}
act-Waits id ch (routes k p) r n h = record {
  valid = route-IsValid k p r h.valid;
  own = ground (arith, h.own, route-channels k p r);
  empty = ground (arith, h.empty, h.own, h.valid.once k id ch, n);
}

run-Waits :
    (id : String) (ch : ℕ) (os : List Operation) (r : ReplyRouter)
    → AllOther id os
    → Waits id ch r
    → Waits id ch (run os r)
unfolding run
run-Waits id ch _ r none_left h = h
run-Waits id ch _ r (and_other o os n all) h =
    run-Waits id ch os (act o r) all (act-Waits id ch o r n h)

pub register-Waits :
    (id : String) (r : ReplyRouter) → IsValid r → Waits id (register id r).1 (register id r).0
unfolding register
register-Waits id r h = record {
  valid = register-IsValid id r h;
  own = ground (arith, lookup-insert id id r.fresh r.channels, ==_refl id);
  empty = ground arith;
}

-- The reading of a reply: an error reply is an error, with the raw body where it has no message, and a
-- completion signal is a nil body.
unfoldable pub reading : (String → Option String) → ReplyPayload → Awaited
reading error_message p =
    if p.is_error
    then fails (handler_error (elim (error_message p.body) [ none ↦ p.body | some m ↦ m ]))
    else body (if p.is_empty then none else some p.body)

-- A query gets its own reply: after `Register`, whatever the router then does for other correlation
-- ids, and a reply to this one, the caller that awaits its channel while its context lasts reads that
-- reply, even if a second reply to it came in before the caller read.
pub reply_round_trip :
    (error_message : String → Option String) (id : String) (os : List Operation)
    (p late : ReplyPayload) (r : ReplyRouter)
    → IsValid r
    → AllOther id os
    → let (t, ch) = register id r in
      let answered = route id late (route id p (run os t)) in
      (await_reply error_message ch false answered).1 ≡ reading error_message p
unfolding await_reply route reading
reply_round_trip error_message id os p late r valid all =
    let w = run-Waits id (register id r).1 os (register id r).0 all (register-Waits id r valid) in
    ground (arith, w.own, w.empty)
