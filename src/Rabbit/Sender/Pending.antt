-- ===== src/Rabbit/Sender/Pending.antt =====
-- internal/rabbit/sender.go: what the waiters of `pending` get: the invariant of the map and of
-- the buffers, and that every operation keeps it.
use reactive_commons_go.Base.{
  ℕ, ◌+◌, ◌<◌, ◌≡◌, refl, sym, subst, Bool, [], ◌∷◌, Option, none, some, arith, ◌≢◌, ℕ_discrete,
  Option-cases, ◌⊎◌, inl, inr,
}
use reactive_commons_go.Base.NatDict.{NatDict, find, remove, find-put, find-remove}
use reactive_commons_go.Rabbit.Sender.{
  SendError, channel_closed, Reply, u64, Sender, fill, offer, drain, fail_pending_locked, register,
  rollback_tag, abandon, fails, publish_confirmed, Confirmation, reply_of, dispatch_confirm,
}

-- A waiter that is registered has nothing in its buffer, and no two tags have the same one.
pub record PendingIsValid (s : Sender) : Type 0 where
  pub empty : (t w : ℕ) → find t s.pending ≡ some w → s.inbox w ≡ none
  pub made : (t w : ℕ) → find t s.pending ≡ some w → w < s.fresh
  pub once : (t u w : ℕ) → find t s.pending ≡ some w → find u s.pending ≡ some w → t ≡ u

drain-keeps :
    (p : NatDict ℕ) (inbox : ℕ → Option Reply) (w : ℕ) (r : Reply)
    → inbox w ≡ some r
    → drain p inbox w ≡ some r
unfolding drain
drain-keeps [] inbox w r e = e
drain-keeps ((tag, v) ∷ p) inbox w r e =
    drain-keeps p (offer v (some channel_closed) inbox) w r (ground arith)

offer-fills : (w : ℕ) (r : Reply) (inbox : ℕ → Option Reply) → offer w r inbox w ≢ none
offer-fills w r inbox = ground arith

drain-filled :
    (p : NatDict ℕ) (inbox : ℕ → Option Reply) (w : ℕ) → inbox w ≢ none → drain p inbox w ≢ none
drain-filled p inbox w h = elim (Option-cases (inbox w)) [
  | inl e ↦ absurd (h e)
  | inr (r, e) ↦ λ f. ground (arith, drain-keeps p inbox w r e)
]

drain-releases :
    (p : NatDict ℕ) (inbox : ℕ → Option Reply) (t w : ℕ)
    → find t p ≡ some w
    → drain p inbox w ≢ none
unfolding drain find
drain-releases [] inbox t w e = ground arith
drain-releases ((tag, v) ∷ p) inbox t w e = elim (ℕ_discrete tag t) [
  | yes f ↦
      drain-filled p (offer v (some channel_closed) inbox) w
        (ground (arith, offer-fills v (some channel_closed) inbox))
  | no f ↦ drain-releases p (offer v (some channel_closed) inbox) t w (ground arith)
]

-- A sender whose waiters are among those of a valid one.
shrink-PendingIsValid :
    (s t : Sender)
    → ((k w : ℕ) → find k t.pending ≡ some w → find k s.pending ≡ some w)
    → t.inbox ≡ s.inbox
    → t.fresh ≡ s.fresh
    → PendingIsValid s
    → PendingIsValid t
shrink-PendingIsValid s t sub i f h = record {
  empty = λ k w e. subst (λ b. b w ≡ none) (sym i) (h.empty k w (sub k w e));
  made = λ k w e. ground (arith, h.made k w (sub k w e), f);
  once = λ k u w e d. h.once k u w (sub k w e) (sub u w d);
}

pub register-PendingIsValid : (s : Sender) → PendingIsValid s → PendingIsValid (register s).0
unfolding register
register-PendingIsValid s h = record {
  empty = λ t w e.
      ground (arith, find-put (u64 (s.next_tag + 1)) t s.fresh s.pending, h.made t w, h.empty t w);
  made = λ t w e. ground (arith, find-put (u64 (s.next_tag + 1)) t s.fresh s.pending, h.made t w);
  once = λ t u w e f. ground (
    arith,
    find-put (u64 (s.next_tag + 1)) t s.fresh s.pending,
    find-put (u64 (s.next_tag + 1)) u s.fresh s.pending,
    h.made t w,
    h.made u w,
    h.once t u w,
  );
}

pub rollback_tag-PendingIsValid :
    (tag v : ℕ) (s : Sender) → PendingIsValid s → PendingIsValid (rollback_tag tag v s)
unfolding rollback_tag
rollback_tag-PendingIsValid tag v s =
    shrink-PendingIsValid s (rollback_tag tag v s)
      (λ k w e. ground (arith, find-remove tag k s.pending)) (ground arith) (ground arith)

pub abandon-PendingIsValid :
    (tag v : ℕ) (s : Sender) → PendingIsValid s → PendingIsValid (abandon tag v s)
unfolding abandon
abandon-PendingIsValid tag v s =
    shrink-PendingIsValid s (abandon tag v s) (λ k w e. ground (arith, find-remove tag k s.pending))
      (ground arith) (ground arith)

pub fail_pending_locked-PendingIsValid : (s : Sender) → PendingIsValid (fail_pending_locked s)
unfolding fail_pending_locked find
fail_pending_locked-PendingIsValid s = record {
  empty = λ t w e. ground arith;
  made = λ t w e. ground arith;
  once = λ t u w e d. ground arith;
}

-- When the channel is lost, no send is left waiting: `failPendingLocked` empties the map, sets the
-- tag counter back to 0, gives every registered waiter something to receive, and takes nothing
-- from a waiter that has its reply already.
pub fail_pending_locked-releases :
    (s : Sender)
    → ((fail_pending_locked s).pending ≡ [])
      × ((fail_pending_locked s).next_tag ≡ 0)
      × ((t w : ℕ) → find t s.pending ≡ some w → (fail_pending_locked s).inbox w ≢ none)
      × ((w : ℕ) (r : Reply) → s.inbox w ≡ some r → (fail_pending_locked s).inbox w ≡ some r)
unfolding fail_pending_locked
fail_pending_locked-releases s =
    (refl, refl, drain-releases s.pending s.inbox, drain-keeps s.pending s.inbox)

-- What the watcher's call does to the sender `t` it leaves.
pub record Answers (gen : ℕ) (c : Confirmation) (s t : Sender) : Type 0 where
  pub valid : PendingIsValid t
  pub counters : (t.next_tag ≡ s.next_tag) × (t.gen ≡ s.gen) × (t.ch ≡ s.ch)
  pub stale : s.gen ≢ gen → t ≡ s
  pub forgets : s.gen ≡ gen → find c.delivery_tag t.pending ≡ none
  pub answers :
      s.gen ≡ gen → (w : ℕ) → find c.delivery_tag s.pending ≡ some w → t.inbox w ≡ some (reply_of c)
  pub within : (k w : ℕ) → find k t.pending ≡ some w → find k s.pending ≡ some w
  pub others :
      (k w : ℕ)
      → find k s.pending ≡ some w
      → k ≢ c.delivery_tag
      → (find k t.pending ≡ some w) × (t.inbox w ≡ none)

delivered : ℕ → Confirmation → Sender → Sender
unfolding remove
delivered w c s = record s {
  pending = remove c.delivery_tag s.pending;
  inbox = fill w (reply_of c) s.inbox;
}

dispatch_confirm-hit :
    (gen : ℕ) (c : Confirmation) (s : Sender) (w : ℕ)
    → s.gen ≡ gen
    → find c.delivery_tag s.pending ≡ some w
    → s.inbox w ≡ none
    → dispatch_confirm gen c s ≡ some (delivered w c s)
unfolding dispatch_confirm delivered
dispatch_confirm-hit gen c s w g e i = ground arith

dispatch_confirm-miss :
    (gen : ℕ) (c : Confirmation) (s : Sender)
    → (s.gen ≢ gen) ⊎ (find c.delivery_tag s.pending ≡ none)
    → dispatch_confirm gen c s ≡ some s
unfolding dispatch_confirm
dispatch_confirm-miss gen c s h = ground arith

delivered-Answers :
    (gen : ℕ) (c : Confirmation) (s : Sender) (w : ℕ)
    → PendingIsValid s
    → s.gen ≡ gen
    → find c.delivery_tag s.pending ≡ some w
    → Answers gen c s (delivered w c s)
unfolding delivered
delivered-Answers gen c s w h g e = record {
  valid = record {
    empty = λ k v d.
        ground (
          arith,
          find-remove c.delivery_tag k s.pending,
          h.empty k v,
          h.once k c.delivery_tag v,
          e,
        );
    made = λ k v d. ground (arith, find-remove c.delivery_tag k s.pending, h.made k v);
    once = λ k u v d f. ground (
      arith,
      find-remove c.delivery_tag k s.pending,
      find-remove c.delivery_tag u s.pending,
      h.once k u v,
    );
  };
  counters = (refl, refl, refl);
  stale = λ n. absurd (n g);
  forgets = λ _. ground (arith, find-remove c.delivery_tag c.delivery_tag s.pending);
  answers = λ _ v d. ground arith;
  within = λ k v d. ground (arith, find-remove c.delivery_tag k s.pending);
  others = λ k v d n. (
    ground (arith, find-remove c.delivery_tag k s.pending),
    ground (arith, h.empty k v d, h.once k c.delivery_tag v d),
  );
}

unchanged-Answers :
    (gen : ℕ) (c : Confirmation) (s : Sender)
    → PendingIsValid s
    → (s.gen ≢ gen) ⊎ (find c.delivery_tag s.pending ≡ none)
    → Answers gen c s s
unchanged-Answers gen c s h missed = record {
  valid = h;
  counters = (refl, refl, refl);
  stale = λ _. refl;
  forgets = λ g. ground (arith, missed);
  answers = λ g w e. ground (arith, missed);
  within = λ k w e. e;
  others = λ k w e n. (e, h.empty k w e);
}

-- A broker confirmation always gets through: `dispatchConfirm` never blocks on the waiter's channel,
-- and in the sender it leaves the waiter of the confirmed tag has the broker's verdict and is no
-- longer registered, every other waiter is as before, and a confirmation that a superseded watcher
-- brings changes nothing.
pub dispatch_confirm-Answers :
    (gen : ℕ) (c : Confirmation) (s : Sender)
    → PendingIsValid s
    → (t : Sender) × (dispatch_confirm gen c s ≡ some t) × Answers gen c s t
dispatch_confirm-Answers gen c s h = elim (Option-cases (find c.delivery_tag s.pending)) [
  | inl miss ↦ (s, dispatch_confirm-miss gen c s (inr miss), unchanged-Answers gen c s h (inr miss))
  | inr (w, hit) ↦ elim (ℕ_discrete s.gen gen) [
    | yes g ↦ (
      delivered w c s,
      dispatch_confirm-hit gen c s w g hit (h.empty c.delivery_tag w hit),
      delivered-Answers gen c s w h g hit,
    )
    | no g ↦ (s, dispatch_confirm-miss gen c s (inl g), unchanged-Answers gen c s h (inl g))
  ]
]

-- A send that fails before the broker has its message (an expired context, no channel, a refused
-- publish) takes its registration back: the tag is the next send's again, and every entry of the map
-- that the goroutines in between have left alone is as before. They are only taken to leave the tag
-- counter and the send's own entry alone. A tag that is registered already is excluded: the map would
-- lose it.
pub publish_confirmed-restores :
    (expired publishes : Bool) (between : Sender → Sender) (s : Sender) (e : SendError)
    → s.next_tag < 18446744073709551616
    → find (u64 (s.next_tag + 1)) s.pending ≡ none
    → (between (register s).0).next_tag ≡ u64 (s.next_tag + 1)
    → find (u64 (s.next_tag + 1)) (between (register s).0).pending ≡ some s.fresh
    → (publish_confirmed expired publishes between s).1 ≡ fails e
    → ((publish_confirmed expired publishes between s).0.next_tag ≡ s.next_tag)
      × ((k : ℕ)
          → find k (between (register s).0).pending ≡ find k (register s).0.pending
          → find k (publish_confirmed expired publishes between s).0.pending ≡ find k s.pending)
unfolding publish_confirmed register rollback_tag
publish_confirmed-restores expired publishes between s e b free same own failed = (
  ground (arith, failed),
  λ k left. ground (
    arith,
    failed,
    find-put (u64 (s.next_tag + 1)) k s.fresh s.pending,
    find-remove (u64 (s.next_tag + 1)) k (between (register s).0).pending,
  ),
)

-- If its registration was taken away in between, by a drain or a confirmation, the failed send leaves
-- the sender to the others as it is: the rollback takes neither their tag counter nor their waiters.
pub publish_confirmed-leaves :
    (expired publishes : Bool) (between : Sender → Sender) (s : Sender)
    → find (u64 (s.next_tag + 1)) (between (register s).0).pending ≢ some s.fresh
    → (publish_confirmed expired publishes between s).0 ≡ between (register s).0
unfolding publish_confirmed register rollback_tag
publish_confirmed-leaves expired publishes between s gone = ground (arith, gone)
