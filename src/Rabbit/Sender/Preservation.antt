-- ===== src/Rabbit/Sender/Preservation.antt =====
-- internal/rabbit/sender.go: every step keeps the tags aligned with the broker's numbers.
use reactive_commons_go.Base.{
  ℕ, ◌+◌, ◌≤◌, ◌≡◌, ◌≢◌, refl, sym, subst, ◌∙◌, inr, Bool, true, false, Option, some, arith,
  ℕ_discrete,
}
use reactive_commons_go.Base.NatDict.{find, find-remove}
use mathlib.Core.Option.{some-injective}
use reactive_commons_go.Rabbit.Sender.{
  Sender, fail_pending_locked, Registered, register, rollback_tag, abandon, Confirmation,
  dispatch_confirm, on_channel_closed, install,
}
use reactive_commons_go.Rabbit.Sender.Pending.{
  Answers, register-PendingIsValid, rollback_tag-PendingIsValid, abandon-PendingIsValid,
  fail_pending_locked-PendingIsValid, dispatch_confirm-Answers,
}
use reactive_commons_go.Rabbit.Sender.World.{
  Slot, free, registered, published, notifying, World, notify_on, drain_current, Step, registers,
  rolls_back, publishes, releases, abandons, confirms, dies, closes, reconnects, installs,
  takes_channel, notifies, gives_up,
}
use reactive_commons_go.Rabbit.Sender.Alignment.{
  CounterIsAligned, Logged, HeldFor, IsAlignedOn, IsAligned, register-IsAlignedOn,
  shrink-IsAlignedOn, rollback_tag-IsAlignedOn, publish_on-IsAlignedOn, release-IsAlignedOn,
  take-IsAlignedOn, give_up-IsAlignedOn,
}

pub in_slot :
    (ch : ℕ) (s : Sender) (a b : Slot) (n : ℕ) (log : ℕ → Option ℕ)
    → a ≡ b
    → IsAlignedOn ch s a n log
    → IsAlignedOn ch s b n log
in_slot ch s a b n log e = subst (λ x. IsAlignedOn ch s x n log) e

-- A drain of the current channel, which is dead.
drains :
    (w : World)
    → ((ch : ℕ) → w.sender.ch ≡ some ch → w.dead ch ≡ true)
    → IsAligned (record w { sender = fail_pending_locked w.sender })
unfolding fail_pending_locked
drains w gone = record {
  valid = fail_pending_locked-PendingIsValid w.sender;
  on = λ ch e alive straight. absurd (ground (arith, gone ch e, alive));
}

reconnect-IsAligned : (w : World) → IsAligned (drain_current w)
unfolding fail_pending_locked
reconnect-IsAligned w = record {
  valid = fail_pending_locked-PendingIsValid w.sender;
  on = λ ch e alive straight. absurd (ground (arith, e, straight));
}

closed-IsAligned :
    (w : World) (gen ch : ℕ) (conn_open : Bool)
    → (w.sender.gen ≡ gen → w.sender.ch ≡ some ch)
    → w.dead ch ≡ true
    → IsAligned w
    → IsAligned (record w { sender = (on_channel_closed gen conn_open w.sender).0 })
unfolding on_channel_closed
closed-IsAligned w gen ch conn_open same gone h = elim (ℕ_discrete w.sender.gen gen) [
  | yes g ↦
      subst (λ s. IsAligned (record w { sender = s })) (sym (current g))
        (drains w (λ c e. ground (arith, same g, gone, e)))
  | no g ↦ subst (λ s. IsAligned (record w { sender = s })) (sym (stale g)) h
]
  where
    current :
        w.sender.gen ≡ gen
        → (on_channel_closed gen conn_open w.sender).0 ≡ fail_pending_locked w.sender
    current g = ground arith

    stale : w.sender.gen ≢ gen → (on_channel_closed gen conn_open w.sender).0 ≡ w.sender
    stale g = ground arith

abandon-IsAligned :
    (w : World) (tag v : ℕ)
    → ((r : Registered) → w.slot ≡ registered r → v ≢ r.waiter)
    → IsAligned w
    → IsAligned (record w { sender = abandon tag v w.sender })
unfolding abandon
abandon-IsAligned w tag v other h = record {
  valid = abandon-PendingIsValid tag v w.sender h.valid;
  on = λ ch e alive straight.
      shrink-IsAlignedOn ch w.sender (abandon tag v w.sender) w.slot (w.count ch) (w.log ch)
        (ground arith) (λ k u d. ground (arith, find-remove tag k w.sender.pending))
        (λ r f t d. ground (arith, other r f, find-remove tag r.tag w.sender.pending))
        (h.on ch (ground (arith, e)) alive straight);
}

answered-IsAligned :
    (w : World) (gen ch : ℕ) (c : Confirmation) (t : Sender)
    → (w.sender.gen ≡ gen → w.sender.ch ≡ some ch)
    → c.delivery_tag ≤ w.count ch
    → Answers gen c w.sender t
    → IsAligned w
    → IsAligned (record w { sender = t })
answered-IsAligned w gen ch c t same b a h = record {
  valid = a.valid;
  on = λ d e alive straight.
      shrink-IsAlignedOn d w.sender t w.slot (w.count d) (w.log d) a.counters.0 a.within
        (λ r f n k. keeps d (sym a.counters.2 ∙ e) r n k)
        (h.on d (sym a.counters.2 ∙ e) alive straight);
}
  where
    keeps :
        (d : ℕ)
        → w.sender.ch ≡ some d
        → (r : Registered) → r.tag ≡ w.count d + 1
        → find r.tag w.sender.pending ≡ some r.waiter
        → find r.tag t.pending ≡ some r.waiter
    keeps d e r n k = elim (ℕ_discrete w.sender.gen gen) [
      | yes g ↦ (a.others r.tag r.waiter k (λ f. absurd (ground (arith, same g, e, f, n, b)))).0
      | no g ↦ subst (λ s. find r.tag s.pending ≡ some r.waiter) (sym (a.stale g)) k
    ]

confirm-IsAligned :
    (w : World) (gen ch : ℕ) (c : Confirmation) (s : Sender)
    → (w.sender.gen ≡ gen → w.sender.ch ≡ some ch)
    → c.delivery_tag ≤ w.count ch
    → dispatch_confirm gen c w.sender ≡ some s
    → IsAligned w
    → IsAligned (record w { sender = s })
confirm-IsAligned w gen ch c s same b e h =
    let (t, f, a) = dispatch_confirm-Answers gen c w.sender h.valid in
    subst (λ x. IsAligned (record w { sender = x })) (some-injective t s (sym f ∙ e))
      (answered-IsAligned w gen ch c t same b a h)

install-IsAligned :
    (w : World) (ch : ℕ)
    → w.count ch ≡ 0
    → ((r : Registered) → w.slot ≡ registered r → r.ch ≢ some ch)
    → IsAligned (record w { sender = install ch w.sender })
unfolding install fail_pending_locked CounterIsAligned find
install-IsAligned w ch new held = record {
  valid = record {
    empty = λ t v e. ground arith;
    made = λ t v e. ground arith;
    once = λ t u v e d. ground arith;
  };
  on = λ c e alive straight. record {
    counter = fits c w.slot held (ground (arith, new, e));
    logged = λ t v d. absurd (ground (arith, d));
  };
}
  where
    fits :
        (c : ℕ) (slot : Slot)
        → ((r : Registered) → slot ≡ registered r → r.ch ≢ some ch)
        → (w.count c ≡ 0) × (ch ≡ c)
        → CounterIsAligned (install ch w.sender) c slot (w.count c)
    fits c free other (z, e) = sym z
    fits c (published r) other (z, e) = sym z
    fits c (notifying o) other (z, e) = sym z
    fits c (registered r) other (z, e) =
        inr (subst (λ x. r.ch ≢ some x) e (other r refl), sym z, λ t d. ground arith)

-- A notification leaves the channels that it is not published on as they were.
notify-IsAlignedOn :
    (w : World) (to ch : ℕ)
    → (notify_on to w).skewed ch ≡ false
    → IsAlignedOn ch w.sender free (w.count ch) (w.log ch)
    → IsAlignedOn ch w.sender free ((notify_on to w).count ch) ((notify_on to w).log ch)
unfolding CounterIsAligned Logged HeldFor
notify-IsAlignedOn w to ch straight h = record {
  counter = ground (arith, h.counter, straight);
  logged = λ t v d. ground (arith, h.logged t v d, straight);
}

pub Step-IsAligned : (w v : World) → Step w v → IsAligned w → IsAligned v
unfolding rollback_tag register
Step-IsAligned _ _ (registers w e b) h = record {
  valid = register-PendingIsValid w.sender h.valid;
  on = λ ch c alive straight.
      register-IsAlignedOn ch w.sender (w.count ch) (w.log ch) c b
        (in_slot ch w.sender w.slot free (w.count ch) (w.log ch) e (h.on ch c alive straight));
}
Step-IsAligned _ _ (rolls_back w r e) h = record {
  valid = rollback_tag-PendingIsValid r.tag r.waiter w.sender h.valid;
  on = λ ch c alive straight.
      rollback_tag-IsAlignedOn ch w.sender r (w.count ch) (w.log ch) h.valid (
        in_slot ch w.sender w.slot (registered r) (w.count ch) (w.log ch) e
          (h.on ch (ground (arith, c)) alive straight));
}
Step-IsAligned _ _ (publishes w r ch e c alive) h = record {
  valid = h.valid;
  on = λ d f alive_ straight.
      publish_on-IsAlignedOn d ch w.sender r w.count w.log c (
        in_slot d w.sender w.slot (registered r) (w.count d) (w.log d) e
          (h.on d f alive_ straight));
}
Step-IsAligned _ _ (releases w r e) h = record {
  valid = h.valid;
  on = λ ch c alive straight. release-IsAlignedOn ch w.sender r (w.count ch) (w.log ch) (
      in_slot ch w.sender w.slot (published r) (w.count ch) (w.log ch) e
        (h.on ch c alive straight));
}
Step-IsAligned _ _ (abandons w tag u other) h = abandon-IsAligned w tag u other h
Step-IsAligned _ _ (confirms w gen ch c s same z b e) h = confirm-IsAligned w gen ch c s same b e h
Step-IsAligned _ _ (dies w ch) h = record {
  valid = h.valid;
  on = λ d e alive straight. h.on d e (ground (arith, alive)) straight;
}
Step-IsAligned _ _ (closes w gen ch conn_open same gone) h =
    closed-IsAligned w gen ch conn_open same gone h
Step-IsAligned _ _ (reconnects w) h = reconnect-IsAligned w
Step-IsAligned _ _ (takes_channel w e) h = record {
  valid = h.valid;
  on = λ ch c alive straight.
      take-IsAlignedOn ch w.sender w.sender.ch (w.count ch) (w.log ch)
        (in_slot ch w.sender w.slot free (w.count ch) (w.log ch) e (h.on ch c alive straight));
}
Step-IsAligned _ _ (notifies w to e alive_) h = record {
  valid = h.valid;
  on = λ ch c alive straight. notify-IsAlignedOn w to ch straight (
      give_up-IsAlignedOn ch w.sender (some to) (w.count ch) (w.log ch) (
        in_slot ch w.sender w.slot (notifying (some to)) (w.count ch) (w.log ch) e
          (h.on ch c alive (ground (arith, straight)))));
}
Step-IsAligned _ _ (gives_up w o e) h = record {
  valid = h.valid;
  on = λ ch c alive straight. give_up-IsAlignedOn ch w.sender o (w.count ch) (w.log ch) (
      in_slot ch w.sender w.slot (notifying o) (w.count ch) (w.log ch) e
        (h.on ch c alive straight));
}
Step-IsAligned _ _ (installs w ch new held fresh) h = install-IsAligned w ch new held
