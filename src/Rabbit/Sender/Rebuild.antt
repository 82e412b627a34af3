-- ===== src/Rabbit/Sender/Rebuild.antt =====
-- internal/rabbit/sender.go: `rebuild`, which replaces a channel at most once per generation.
use reactive_commons_go.Base.{
  ℕ, ◌+◌, ◌<◌, ◌≡◌, refl, ◌⊎◌, inl, inr, Bool, true, false, List, [], ◌∷◌, Option, none, some,
  if◌then◌else◌, arith, if-cases,
}
use reactive_commons_go.Rabbit.Sender.{
  u64, Sender, fail_pending_locked, not_current, install, Replacement, close_old, rebuild, Rebuilt,
  installed, not_installed, rebuild_failed,
}

-- The new channel, whether it was opened dead or alive.
NewChannel : Option (ℕ × Bool) → ℕ → Bool → Type 0
NewChannel opened ch is_closed = opened ≡ some (ch, is_closed)

-- What a rebuild for generation `expected` leaves, by how it ends: the sender `t` in place of `s`, and
-- the channels closed.
pub Outcome : ℕ → Option (ℕ × Bool) → Bool → Sender → Sender → Rebuilt → List ℕ → Type 0
Outcome expected opened old_closed s t installed closed =
    (s.gen ≡ expected)
    × (t.gen ≡ u64 (expected + 1))
    × (t.pending ≡ [])
    × (t.next_tag ≡ 0)
    × ((ch : ℕ) × NewChannel opened ch false × (t.ch ≡ some ch))
    × ((old : ℕ) → s.ch ≡ some old → old_closed ≡ false → closed ≡ old ∷ [])
    × ((s.ch ≡ none) ⊎ (old_closed ≡ true) → closed ≡ [])
Outcome expected opened old_closed s t not_installed closed =
    (t ≡ s) × ((closed ≡ []) ⊎ ((ch : ℕ) × NewChannel opened ch false × (closed ≡ ch ∷ [])))
Outcome expected opened old_closed s t rebuild_failed closed =
    (t ≡ s)
    × (((opened ≡ none) × (closed ≡ []))
        ⊎ ((ch : ℕ) × NewChannel opened ch true × (closed ≡ ch ∷ [])))

-- `rebuild` installs the new channel only in the generation it was asked for, and then moves to the
-- next one with no waiter and a tag counter of 0, and closes the old channel if that is open; however
-- else it ends, the sender is as it was and no channel is closed but the new one, and it ends with an
-- error only if no open channel was to be had.
pub rebuild-Outcome :
    (expected : ℕ) (require_open : Bool) (s : Sender) (open_ : Bool) (opened : Option (ℕ × Bool))
    (s' : Sender) (open_' old_closed : Bool)
    → (let r = rebuild expected require_open s open_ opened s' open_' old_closed in
        Outcome expected opened old_closed s' r.sender r.ends r.closed)
unfolding rebuild install fail_pending_locked Outcome NewChannel close_old
rebuild-Outcome expected require_open s open_ opened s' open_' old_closed =
    if-cases {A = Replacement} (λ r. Outcome expected opened old_closed s' r.sender r.ends r.closed)
      (not_current expected require_open open_ s)
      (record { sender = s'; ends = not_installed; closed = [] }) (past opened)
      (λ _. (refl, inl refl)) (λ _. past-Outcome opened)
  where
    past : Option (ℕ × Bool) → Replacement
    past o = elim o [
      | none ↦ record { sender = s'; ends = rebuild_failed; closed = [] }
      | some (ch, is_closed) ↦
          if is_closed
          then record { sender = s'; ends = rebuild_failed; closed = ch ∷ [] }
          else if not_current expected require_open open_' s'
          then record { sender = s'; ends = not_installed; closed = ch ∷ [] }
          else record {
            sender = install ch s';
            ends = installed;
            closed = close_old s'.ch old_closed;
          }
    ]

    past-Outcome :
        (o : Option (ℕ × Bool))
        → Outcome expected o old_closed s' (past o).sender (past o).ends (past o).closed
    past-Outcome none = (refl, inl (refl, refl))
    past-Outcome (some (ch, true)) = (refl, inr (ch, refl, refl))
    past-Outcome (some (ch, false)) =
        if-cases {A = Replacement}
          (λ r. Outcome expected (some (ch, false)) old_closed s' r.sender r.ends r.closed)
          (not_current expected require_open open_' s')
          (record { sender = s'; ends = not_installed; closed = ch ∷ [] })
          (record { sender = install ch s'; ends = installed; closed = close_old s'.ch old_closed })
          (λ _. (refl, inr (ch, refl, refl)))
          (λ e. (
            ground (arith, e),
            ground (arith, e),
            refl,
            refl,
            (ch, refl, refl),
            λ old f g. ground (arith, f, g),
            λ h. ground (arith, h),
          ))

-- A generation has one successor: once a rebuild for it has installed a channel, any other rebuild for
-- it that locks the sender afterwards leaves it alone and closes at most the channel it has opened.
pub rebuild_once :
    (expected : ℕ) (require_open : Bool) (s t : Sender) (open_ : Bool) (opened : Option (ℕ × Bool))
    (s' : Sender) (open_' old_closed : Bool)
    → t.gen ≡ u64 (expected + 1)
    → expected < 18446744073709551616
    → (rebuild expected require_open t open_ opened s' open_' old_closed
        ≡ record { sender = s'; ends = not_installed; closed = [] })
      × ((rebuild expected require_open s open_ opened t open_' old_closed).sender ≡ t)
unfolding rebuild
rebuild_once expected require_open s t open_ opened s' open_' old_closed g b =
    (ground arith, ground arith)
