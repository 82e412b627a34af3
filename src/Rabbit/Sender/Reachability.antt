-- ===== src/Rabbit/Sender/Reachability.antt =====
-- internal/rabbit/sender.go: the tags stay aligned with the broker's numbers, so a
-- confirmation reaches the send it is for.
use reactive_commons_go.Base.{
  ◌≢◌, ℕ, ◌+◌, ◌<◌, ◌≤◌, ◌≡◌, refl, sym, ap, subst, ◌∙◌, inl, inr, true, false, none, some, arith,
}
use reactive_commons_go.Base.NatDict.{find, find-put}
use mathlib.Core.Option.{some-injective}
use reactive_commons_go.Rabbit.Sender.{
  fail_pending_locked, u64, Sender, register, send_no_confirm, Confirmation, reply_of,
  dispatch_confirm,
}
use reactive_commons_go.Rabbit.Sender.Pending.{dispatch_confirm-Answers}
use reactive_commons_go.Rabbit.Sender.World.{
  Slot, free, registered, published, notifying, World, publish_on, notify_on, drain_current,
  Reachable, starts, and_then, new_world,
}
use reactive_commons_go.Rabbit.Sender.Alignment.{CounterIsAligned, Logged, HeldFor, IsAligned}
use reactive_commons_go.Rabbit.Sender.Preservation.{in_slot, Step-IsAligned}

new_world-IsAligned : IsAligned new_world
unfolding find
new_world-IsAligned = record {
  valid = record {
    empty = λ t v e. ground arith;
    made = λ t v e. ground arith;
    once = λ t u v e d. ground arith;
  };
  on = λ c e alive straight. absurd (ground (arith, e));
}

-- In every world that sends, notifications, confirmations, closes, reconnects and rebuilds can lead
-- to, the tag counter agrees with the broker's count of the messages on the current channel, and a
-- registered waiter's tag is the broker's number for its message, unless it has not published yet: as
-- long as that channel is alive, has carried no notification, and has not been drained by a
-- `Reconnect` that found it current.
pub Reachable-IsAligned : (w : World) → Reachable w → IsAligned w
Reachable-IsAligned _ starts = new_world-IsAligned
Reachable-IsAligned _ (and_then v w r s) = Step-IsAligned v w s (Reachable-IsAligned v r)

-- On a live channel that has carried no notification and that no `Reconnect` has drained while it was
-- current, a confirmation is never taken for another send's: when the current channel's watcher
-- brings the confirmation of a number that the broker has given, the waiter that gets the verdict
-- is the one of the send whose message has that number.
pub confirm_reaches_its_send :
    (w : World) (ch v : ℕ) (c : Confirmation) (s : Sender)
    → Reachable w
    → w.sender.ch ≡ some ch
    → w.dead ch ≡ false
    → w.skewed ch ≡ false
    → c.delivery_tag ≤ w.count ch
    → dispatch_confirm w.sender.gen c w.sender ≡ some s
    → find c.delivery_tag w.sender.pending ≡ some v
    → (w.log ch c.delivery_tag ≡ some v) × (s.inbox v ≡ some (reply_of c))
unfolding CounterIsAligned Logged HeldFor
confirm_reaches_its_send w ch v c s r e alive straight b d f =
    let h = Reachable-IsAligned w r in
    let on = h.on ch e alive straight in
    let (t, g, a) = dispatch_confirm-Answers w.sender.gen c w.sender h.valid in
    (
      its_message w.slot on.counter (on.logged c.delivery_tag v f),
      subst (λ x. x.inbox v ≡ some (reply_of c)) (some-injective t s (sym g ∙ d))
          (a.answers refl v f),
    )
  where
    its_message :
        (slot : Slot)
        → CounterIsAligned w.sender ch slot (w.count ch)
        → Logged slot (w.count ch) (w.log ch) c.delivery_tag v
        → w.log ch c.delivery_tag ≡ some v
    its_message slot k (inl l) = l.0
    its_message free k (inr x) = absurd x
    its_message (published q) k (inr x) = absurd x
    its_message (notifying o) k (inr x) = absurd x
    its_message (registered q) (inl k) (inr x) = absurd (ground (arith, k, x, b))
    its_message (registered q) (inr (k, l, m)) (inr x) =
        absurd (m c.delivery_tag (f ∙ ap some (sym x.1)))

-- `SendNoConfirm` breaks the alignment: when it is the first to publish a notification on the live
-- current channel of any reachable world with a free slot, and no `Reconnect` has drained that channel, the broker counts a message that the sender does not, so the next send with a
-- confirm waits for the number of the notification, and its own message has the number after it.
pub notify_shifts_tags :
    (w : World) (ch : ℕ)
    → Reachable w
    → w.sender.ch ≡ some ch
    → w.dead ch ≡ false
    → w.skewed ch ≡ false
    → w.slot ≡ free
    → w.sender.next_tag + 1 < 18446744073709551616
    → (send_no_confirm true w.sender ≡ none)
      × (let r = (register w.sender).1 in
          let v = publish_on ch r (notify_on ch w) in
          (find r.tag (register w.sender).0.pending ≡ some r.waiter)
          × (v.log ch r.tag ≡ none)
          × (v.log ch (r.tag + 1) ≡ some r.waiter))
unfolding register send_no_confirm CounterIsAligned
notify_shifts_tags w ch r e alive straight f b = (
  ground (arith, e),
  let tag = u64 (w.sender.next_tag + 1) in
      let k =
        (in_slot ch w.sender w.slot free (w.count ch) (w.log ch) f
          ((Reachable-IsAligned w r).on ch e alive straight)).counter in
      (
        ground (arith, find-put tag tag w.sender.fresh w.sender.pending),
        ground (arith, k),
        ground (arith, k),
      ),
)

-- So does a `Reconnect` that finds a live current channel with messages on it, if its own rebuild then
-- opens no channel: the next send there waits for the number 1, and its message has a later one.
reconnect_shifts_tags :
    (w : World) (ch : ℕ)
    → w.sender.ch ≡ some ch
    → 0 < w.count ch
    → let v = drain_current w in
      let r = (register v.sender).1 in
      (r.ch ≡ some ch)
      × (r.tag ≡ 1)
      × ((publish_on ch r v).log ch (w.count ch + 1) ≡ some r.waiter)
      × (r.tag ≢ w.count ch + 1)
unfolding register fail_pending_locked
reconnect_shifts_tags w ch e carried = (e, ground arith, ground arith, ground (arith, carried))
