-- ===== src/Rabbit/Sender/World.antt =====
-- internal/rabbit/sender.go: the goroutines around one sender, as steps. A step is one stretch of
-- code under `s.mu` (or the send on a channel that follows it), or what the broker and the AMQP
-- library do in between: they count the publishes of a channel from 1, confirm only numbers that
-- they have given, and close the listeners of a channel only once it is dead.
use reactive_commons_go.Base.{
  ℕ, ◌+◌, ◌<◌, ◌≤◌, ◌≡◌, ◌≢◌, Bool, true, false, [], Option, none, some, eqb, if◌then◌else◌, ◌&&◌,
}
use reactive_commons_go.Rabbit.Sender.{
  Sender, fail_pending_locked, Registered, register, rollback_tag, abandon, Confirmation,
  dispatch_confirm, on_channel_closed, install,
}

-- The publish slot: free, held by a send that has registered or by one that has published, or held by
-- a notification that has taken the channel at that time.
pub data Slot : Type 0 where
  free : Slot
  registered published : Registered → Slot
  notifying : Option ℕ → Slot

pub record World : Type 0 where
  pub sender : Sender
  pub slot : Slot
  -- The broker: how many messages each channel has carried, whether it is dead, and the waiter of
  -- the send that a channel's nth message belongs to.
  pub count : ℕ → ℕ
  pub dead : ℕ → Bool
  pub log : ℕ → ℕ → Option ℕ
  -- A record of the past that no step reads: the channels that have carried a notification, and those
  -- that `Reconnect` has drained while they were current.
  pub skewed : ℕ → Bool

abbrev pub bump : ℕ → (ℕ → ℕ) → ℕ → ℕ
bump ch count c = if eqb ch c then count c + 1 else count c

abbrev pub note : ℕ → ℕ → Option ℕ → (ℕ → ℕ → Option ℕ) → ℕ → ℕ → Option ℕ
note ch n w log c m = if eqb ch c && eqb n m then w else log c m

abbrev pub mark : ℕ → (ℕ → Bool) → ℕ → Bool
mark ch marks c = if eqb ch c then true else marks c

abbrev pub mark_current : Option ℕ → (ℕ → Bool) → ℕ → Bool
mark_current ch marks = elim ch [ none ↦ marks | some c ↦ mark c marks ]

abbrev pub publish_on : ℕ → Registered → World → World
publish_on ch r w = record w {
  slot = published r;
  count = bump ch w.count;
  log = note ch (w.count ch + 1) (some r.waiter) w.log;
}

-- `SendNoConfirm` on the channel: the broker counts the message, the sender does not.
abbrev pub notify_on : ℕ → World → World
notify_on ch w = record w {
  slot = free;
  count = bump ch w.count;
  log = note ch (w.count ch + 1) none w.log;
  skewed = mark ch w.skewed;
}

-- The drain at the start of `Reconnect`.
abbrev pub drain_current : World → World
drain_current w = record w {
  sender = fail_pending_locked w.sender;
  skewed = mark_current w.sender.ch w.skewed;
}

pub data Step : World → World → Type 0 where
  registers :
      (w : World)
      → w.slot ≡ free
      → w.sender.next_tag + 1 < 18446744073709551616
      → Step w
          (record w { sender = (register w.sender).0; slot = registered (register w.sender).1 })
  -- an expired context, no channel, or a publish that fails
  rolls_back :
      (w : World) (r : Registered)
      → w.slot ≡ registered r
      → Step w (record w { sender = rollback_tag r.tag r.waiter w.sender; slot = free })
  publishes :
      (w : World) (r : Registered) (ch : ℕ)
      → w.slot ≡ registered r
      → r.ch ≡ some ch
      → w.dead ch ≡ false
      → Step w (publish_on ch r w)
  releases : (w : World) (r : Registered) → w.slot ≡ published r → Step w (record w { slot = free })
  -- `SendNoConfirm`: it takes the slot and the channel, publishes, or fails and frees the slot
  takes_channel : (w : World) → w.slot ≡ free → Step w (record w { slot = notifying w.sender.ch })
  notifies :
      (w : World) (ch : ℕ)
      → w.slot ≡ notifying (some ch)
      → w.dead ch ≡ false
      → Step w (notify_on ch w)
  gives_up : (w : World) (ch : Option ℕ) → w.slot ≡ notifying ch → Step w (record w { slot = free })
  -- the context of a send that waits for its confirm ends
  abandons :
      (w : World) (tag v : ℕ)
      → ((r : Registered) → w.slot ≡ registered r → v ≢ r.waiter)
      → Step w (record w { sender = abandon tag v w.sender })
  confirms :
      (w : World) (gen ch : ℕ) (c : Confirmation) (s : Sender)
      → (w.sender.gen ≡ gen → w.sender.ch ≡ some ch)
      → 0 < c.delivery_tag
      → c.delivery_tag ≤ w.count ch
      → dispatch_confirm gen c w.sender ≡ some s
      → Step w (record w { sender = s })
  dies : (w : World) (ch : ℕ) → Step w (record w { dead = mark ch w.dead })
  closes :
      (w : World) (gen ch : ℕ) (conn_open : Bool)
      → (w.sender.gen ≡ gen → w.sender.ch ≡ some ch)
      → w.dead ch ≡ true
      → Step w (record w { sender = (on_channel_closed gen conn_open w.sender).0 })
  -- whatever the current channel is: a retry may have installed a live one already
  reconnects : (w : World) → Step w (drain_current w)
  -- the end of `rebuild`, with a channel that has carried nothing
  installs :
      (w : World) (ch : ℕ)
      → w.count ch ≡ 0
      → ((r : Registered) → w.slot ≡ registered r → r.ch ≢ some ch)
      → w.sender.ch ≢ some ch
      → Step w (record w { sender = install ch w.sender })

-- From a sender that `NewSender` has just made, with no channel yet.
abbrev pub new_sender : Sender
new_sender = record { ch = none; next_tag = 0; pending = []; gen = 0; inbox = λ _. none; fresh = 0 }

abbrev pub new_world : World
new_world = record {
  sender = new_sender;
  slot = free;
  count = λ _. 0;
  dead = λ _. false;
  log = λ _ _. none;
  skewed = λ _. false;
}

pub data Reachable : World → Type 0 where
  starts : Reachable new_world
  and_then : (w v : World) → Reachable w → Step w v → Reachable v
