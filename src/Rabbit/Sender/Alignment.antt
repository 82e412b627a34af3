-- ===== src/Rabbit/Sender/Alignment.antt =====
-- internal/rabbit/sender.go: the tag of a registered send is the number that the broker gives its
-- message.
use reactive_commons_go.Base.{
  ℕ, ◌+◌, ◌<◌, ◌≤◌, ◌≡◌, ◌≢◌, refl, ◌∙◌, ◌⊎◌, inl, inr, false, Option, some, arith, ℕ_discrete,
}
use reactive_commons_go.Base.NatDict.{find, find-put, find-remove}
use reactive_commons_go.Rabbit.Sender.{u64, Sender, Registered, register, rollback_tag}
use reactive_commons_go.Rabbit.Sender.Pending.{PendingIsValid}
use reactive_commons_go.Rabbit.Sender.World.{
  Slot, free, registered, published, notifying, World, bump, note,
}

-- The counter, against the number of messages that the broker has seen on the current channel.
unfoldable pub CounterIsAligned : Sender → ℕ → Slot → ℕ → Type 0
CounterIsAligned s ch free n = s.next_tag ≡ n
CounterIsAligned s ch (published r) n = s.next_tag ≡ n
CounterIsAligned s ch (notifying o) n = s.next_tag ≡ n
CounterIsAligned s ch (registered r) n =
    ((r.ch ≡ some ch)
      × (s.next_tag ≡ n + 1)
      × (r.tag ≡ n + 1)
      × (n + 1 < 18446744073709551616)
      × (find r.tag s.pending ≡ some r.waiter))
    ⊎ ((r.ch ≢ some ch) × (s.next_tag ≡ n) × ((t : ℕ) → find t s.pending ≢ some r.waiter))

unfoldable pub HeldFor : Slot → ℕ → ℕ → Type 0
HeldFor free t v = ⊥
HeldFor (published r) t v = ⊥
HeldFor (notifying o) t v = ⊥
HeldFor (registered r) t v = (r.tag ≡ t) × (r.waiter ≡ v)

-- A registered waiter has its message on the broker, under its tag, or is the slot's holder.
unfoldable pub Logged : Slot → ℕ → (ℕ → Option ℕ) → ℕ → ℕ → Type 0
Logged slot n log t v = ((log t ≡ some v) × (0 < t) × (t ≤ n)) ⊎ HeldFor slot t v

pub record IsAlignedOn (ch : ℕ) (s : Sender) (slot : Slot) (n : ℕ) (log : ℕ → Option ℕ)
    : Type 0 where
  pub counter : CounterIsAligned s ch slot n
  pub logged : (t v : ℕ) → find t s.pending ≡ some v → Logged slot n log t v

pub record IsAligned (w : World) : Type 0 where
  pub valid : PendingIsValid w.sender
  pub on :
      (ch : ℕ)
      → w.sender.ch ≡ some ch
      → w.dead ch ≡ false
      → w.skewed ch ≡ false
      → IsAlignedOn ch w.sender w.slot (w.count ch) (w.log ch)

pub register-IsAlignedOn :
    (ch : ℕ) (s : Sender) (n : ℕ) (log : ℕ → Option ℕ)
    → s.ch ≡ some ch
    → s.next_tag + 1 < 18446744073709551616
    → IsAlignedOn ch s free n log
    → IsAlignedOn ch (register s).0 (registered (register s).1) n log
unfolding register CounterIsAligned Logged HeldFor
register-IsAlignedOn ch s n log e b h = record {
  counter = inl (
    e,
    ground (arith, h.counter),
    ground (arith, h.counter),
    ground (arith, h.counter),
    ground (arith, find-put (u64 (s.next_tag + 1)) (u64 (s.next_tag + 1)) s.fresh s.pending),
  );
  logged = λ t v d. elim (ℕ_discrete (u64 (s.next_tag + 1)) t) [
    | yes f ↦ inr (f, ground (arith, find-put (u64 (s.next_tag + 1)) t s.fresh s.pending))
    | no f ↦
        inl
          (elim (h.logged t v
            (ground (arith, find-put (u64 (s.next_tag + 1)) t s.fresh s.pending))) [
              | inl l ↦ l
              | inr x ↦ absurd x
            ])
  ];
}

-- Whatever leaves the counter and the waiters of the slot alone keeps a sender aligned.
pub shrink-IsAlignedOn :
    (ch : ℕ) (s t : Sender) (slot : Slot) (n : ℕ) (log : ℕ → Option ℕ)
    → t.next_tag ≡ s.next_tag
    → ((k v : ℕ) → find k t.pending ≡ some v → find k s.pending ≡ some v)
    → ((r : Registered)
        → slot ≡ registered r
        → r.tag ≡ n + 1
        → find r.tag s.pending ≡ some r.waiter
        → find r.tag t.pending ≡ some r.waiter)
    → IsAlignedOn ch s slot n log
    → IsAlignedOn ch t slot n log
unfolding CounterIsAligned
shrink-IsAlignedOn ch s t slot n log e sub keep h = record {
  counter = counter_of slot keep h.counter;
  logged = λ k v d. h.logged k v (sub k v d);
}
  where
    counter_of :
        (slot : Slot)
        → ((r : Registered)
            → slot ≡ registered r
            → r.tag ≡ n + 1
            → find r.tag s.pending ≡ some r.waiter
            → find r.tag t.pending ≡ some r.waiter)
        → CounterIsAligned s ch slot n
        → CounterIsAligned t ch slot n
    counter_of free keep c = e ∙ c
    counter_of (published r) keep c = e ∙ c
    counter_of (notifying o) keep c = e ∙ c
    counter_of (registered r) keep (inl (a, b, c, z, d)) = inl (a, e ∙ b, c, z, keep r refl c d)
    counter_of (registered r) keep (inr (a, b, c)) = inr (a, e ∙ b, λ k d. c k (sub k r.waiter d))

pub rollback_tag-IsAlignedOn :
    (ch : ℕ) (s : Sender) (r : Registered) (n : ℕ) (log : ℕ → Option ℕ)
    → PendingIsValid s
    → IsAlignedOn ch s (registered r) n log
    → IsAlignedOn ch (rollback_tag r.tag r.waiter s) free n log
unfolding rollback_tag CounterIsAligned Logged HeldFor
rollback_tag-IsAlignedOn ch s r n log valid h = record {
  counter = elim h.counter [
    | inl c ↦ ground (arith, c)
    | inr (a, b, c) ↦ ground (arith, b, c r.tag)
  ];
  logged = λ t v d. inl (elim h.counter [
    | inl c ↦ ground (arith, c, h.logged t v, find-remove r.tag t s.pending, valid.once t r.tag v)
    | inr (a, b, c) ↦ ground (arith, c t, h.logged t v, find-remove r.tag t s.pending)
  ]);
}

pub publish_on-IsAlignedOn :
    (ch to : ℕ) (s : Sender) (r : Registered) (count : ℕ → ℕ) (log : ℕ → ℕ → Option ℕ)
    → r.ch ≡ some to
    → IsAlignedOn ch s (registered r) (count ch) (log ch)
    → IsAlignedOn ch s
        (published r)
        (bump to count ch)
        (note to (count to + 1) (some r.waiter) log ch)
unfolding CounterIsAligned Logged HeldFor
publish_on-IsAlignedOn ch to s r count log e h = record {
  counter = ground (arith, h.counter);
  logged = λ t v d. inl (elim h.counter [
    | inl c ↦ ground (arith, c, h.logged t v d)
    | inr (a, b, c) ↦ ground (arith, a, c t, h.logged t v d)
  ]);
}

pub release-IsAlignedOn :
    (ch : ℕ) (s : Sender) (r : Registered) (n : ℕ) (log : ℕ → Option ℕ)
    → IsAlignedOn ch s (published r) n log
    → IsAlignedOn ch s free n log
unfolding CounterIsAligned Logged HeldFor
release-IsAlignedOn ch s r n log h = record {
  counter = h.counter;
  logged = λ t v d. h.logged t v d;
}

-- A notification takes the free slot, or gives it back without having published.
pub take-IsAlignedOn :
    (ch : ℕ) (s : Sender) (o : Option ℕ) (n : ℕ) (log : ℕ → Option ℕ)
    → IsAlignedOn ch s free n log
    → IsAlignedOn ch s (notifying o) n log
unfolding CounterIsAligned Logged HeldFor
take-IsAlignedOn ch s o n log h = record { counter = h.counter; logged = λ t v d. h.logged t v d }

pub give_up-IsAlignedOn :
    (ch : ℕ) (s : Sender) (o : Option ℕ) (n : ℕ) (log : ℕ → Option ℕ)
    → IsAlignedOn ch s (notifying o) n log
    → IsAlignedOn ch s free n log
unfolding CounterIsAligned Logged HeldFor
give_up-IsAlignedOn ch s o n log h = record {
  counter = h.counter;
  logged = λ t v d. h.logged t v d;
}
