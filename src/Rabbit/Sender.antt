-- ===== src/Rabbit/Sender.antt =====
-- internal/rabbit/sender.go: publishing with publisher confirms.
-- A function here is one stretch of code under `s.mu` or between two waits; Rabbit/Sender/World.antt
-- interleaves them. A `chan error` of capacity 1 is a waiter number with a place in the inbox, and
-- an AMQP channel is a number. `uint64` counters wrap.
pub mod Pending
pub mod World
pub mod Alignment
pub mod Preservation
pub mod Reachability
pub mod Rebuild
pub mod Retry
mod Samples
use reactive_commons_go.Base.{
  ℕ, suc, ◌+◌, ◌-◌, ◌%◌, ◌^◌, Bool, true, false, not, ◌&&◌, ◌||◌, List, [], ◌∷◌, Option, none, some,
  eqb, if◌then◌else◌,
}
use reactive_commons_go.Base.NatDict.{NatDict, find, put, remove}

pub data SendError : Type 0 where
  channel_closed not_initialized context_done publish_failed : SendError
  nacked : ℕ → SendError

-- What a waiter receives: `none` is the nil error of a broker ack.
abbrev pub Reply : Type 0
Reply = Option SendError

-- Modulo 2^64.
abbrev pub u64 : ℕ → ℕ
u64 n = n % 18446744073709551616

pub record Sender : Type 0 where
  pub ch : Option ℕ
  pub next_tag : ℕ
  pub pending : NatDict ℕ
  pub gen : ℕ
  -- the buffers of the channels that waiters read, and the number of the next one made
  pub inbox : ℕ → Option Reply
  pub fresh : ℕ

abbrev pub fill : ℕ → Reply → (ℕ → Option Reply) → ℕ → Option Reply
fill w r inbox v = if eqb w v then some r else inbox v

-- `select { case ch <- r: default: }`
abbrev pub offer : ℕ → Reply → (ℕ → Option Reply) → ℕ → Option Reply
offer w r inbox = elim (inbox w) [ none ↦ fill w r inbox | some _ ↦ inbox ]

-- The loop of `failPendingLocked` over the map.
unfoldable pub drain : NatDict ℕ → (ℕ → Option Reply) → ℕ → Option Reply
drain [] inbox = inbox
drain ((tag, w) ∷ pending) inbox = drain pending (offer w (some channel_closed) inbox)

unfoldable pub fail_pending_locked : Sender → Sender
unfolding drain
fail_pending_locked s = record s { inbox = drain s.pending s.inbox; pending = []; next_tag = 0 }

-- The first critical section of `SendWithConfirm`.
pub record Registered : Type 0 where
  pub tag : ℕ
  pub waiter : ℕ
  pub ch : Option ℕ

unfoldable pub register : Sender → Sender × Registered
unfolding put
register s =
    let tag = u64 (s.next_tag + 1) in
    (
      record s {
        next_tag = tag;
        pending = put tag s.fresh s.pending;
        inbox = λ v. if eqb s.fresh v then none else s.inbox v;
        fresh = s.fresh + 1;
      },
      record { tag = tag; waiter = s.fresh; ch = s.ch },
    )

-- `s.pending[tag] == resultCh`
abbrev pub is_waiting : Sender → ℕ → ℕ → Bool
is_waiting s tag w = elim (find tag s.pending) [ none ↦ false | some v ↦ eqb v w ]

-- `s.nextTag--` adds 2^64 - 1 and wraps.
unfoldable pub rollback_tag : ℕ → ℕ → Sender → Sender
unfolding find remove
rollback_tag tag w s =
    if is_waiting s tag w
    then record s {
      pending = remove tag s.pending;
      next_tag = if eqb s.next_tag tag then u64 (s.next_tag + 18446744073709551615) else s.next_tag;
    }
    else s

-- The `ctx.Done()` branch of the confirm wait.
unfoldable pub abandon : ℕ → ℕ → Sender → Sender
unfolding find remove
abandon tag w s = if is_waiting s tag w then record s { pending = remove tag s.pending } else s

-- How the stretch from the registration to the release of the publish slot ends.
pub data Sent : Type 0 where
  awaits : ℕ → ℕ → Sent
  fails : SendError → Sent

-- That stretch: `expired` is `ctx.Err() != nil`, `publishes` is whether `PublishWithContext` returns
-- nil, and `between` is what other goroutines do to the sender while `s.mu` is free, after the
-- registration and before the rollback or the release of the slot.
unfoldable pub publish_confirmed : Bool → Bool → (Sender → Sender) → Sender → Sender × Sent
unfolding register rollback_tag
publish_confirmed expired publishes between s =
    let (t, r) = register s in
    let failed = rollback_tag r.tag r.waiter (between t) in
    if expired then (failed, fails context_done) else elim r.ch [
      | none ↦ (failed, fails not_initialized)
      | some _ ↦
          if publishes then (between t, awaits r.tag r.waiter) else (failed, fails publish_failed)
    ]

pub record Confirmation : Type 0 where
  pub delivery_tag : ℕ
  pub ack : Bool

abbrev pub reply_of : Confirmation → Reply
reply_of c = if c.ack then none else some (nacked c.delivery_tag)

-- `ch <- r` blocks while the buffer is full: `none`.
abbrev pub send_reply : ℕ → Reply → Sender → Option Sender
send_reply w r s = elim (s.inbox w) [
  | none ↦ some (record s { inbox = fill w r s.inbox })
  | some _ ↦ none
]

-- `none` means that the watcher blocks.
unfoldable pub dispatch_confirm : ℕ → Confirmation → Sender → Option Sender
unfolding find remove
dispatch_confirm gen c s =
    if not (eqb s.gen gen) then some s else elim (find c.delivery_tag s.pending) [
      | none ↦ some s
      | some w ↦ send_reply w (reply_of c) (record s { pending = remove c.delivery_tag s.pending })
    ]

-- What the watcher does next when its channel is closed.
pub data AfterClose : Type 0 where
  nothing retries : AfterClose

unfoldable pub on_channel_closed : ℕ → Bool → Sender → Sender × AfterClose
unfolding fail_pending_locked
on_channel_closed gen conn_open s =
    if not (eqb s.gen gen)
    then (s, nothing)
    else (fail_pending_locked s, if conn_open then retries else nothing)

-- `SendNoConfirm` after it has the publish slot: it changes nothing in the sender.
unfoldable pub send_no_confirm : Bool → Sender → Reply
send_no_confirm publishes s = elim s.ch [
  | none ↦ some not_initialized
  | some _ ↦ if publishes then none else some publish_failed
]

pub data Rebuilt : Type 0 where
  installed : Rebuilt
  not_installed : Rebuilt
  rebuild_failed : Rebuilt

-- The second critical section of `rebuild`, past its guard.
unfoldable pub install : ℕ → Sender → Sender
unfolding fail_pending_locked
install ch s = record (fail_pending_locked s) { ch = some ch; gen = u64 (s.gen + 1) }

abbrev pub not_current : ℕ → Bool → Bool → Sender → Bool
not_current expected_gen require_open conn_open s =
    not (eqb s.gen expected_gen) || require_open && not conn_open

-- What a rebuild leaves: the sender, how it ends, and the AMQP channels that it has closed.
pub record Replacement : Type 0 where
  pub sender : Sender
  pub ends : Rebuilt
  pub closed : List ℕ

-- `if old != nil && !old.IsClosed() { old.Close() }`
unfoldable pub close_old : Option ℕ → Bool → List ℕ
close_old none is_closed = []
close_old (some old) is_closed = if is_closed then [] else old ∷ []

-- `rebuild`: `s` is the sender at the first lock and `s'` at the second, with the state of the
-- connection at each; `opened` is the new channel, if `openCh` returns one, and whether it is
-- closed already; `old_closed` is whether the replaced channel is.
unfoldable pub rebuild :
    ℕ → Bool → Sender → Bool → Option (ℕ × Bool) → Sender → Bool → Bool → Replacement
unfolding install close_old
rebuild expected_gen require_open s open_ opened s' open_' old_closed =
    if not_current expected_gen require_open open_ s
    then record { sender = s'; ends = not_installed; closed = [] }
    else elim opened [
      | none ↦ record { sender = s'; ends = rebuild_failed; closed = [] }
      | some (ch, is_closed) ↦
          if is_closed
          then record { sender = s'; ends = rebuild_failed; closed = ch ∷ [] }
          else if not_current expected_gen require_open open_' s'
          then record { sender = s'; ends = not_installed; closed = ch ∷ [] }
          else record {
            sender = install ch s';
            ends = installed;
            closed = close_old s'.ch old_closed;
          }
    ]
