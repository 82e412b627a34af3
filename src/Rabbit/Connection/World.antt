-- ===== src/Rabbit/Connection/World.antt =====
-- internal/rabbit/connection.go: `Dial` in its goroutine, the goroutines that watch a connection and
-- reconnect, the call that stops it all, and the broker, as steps. `Dial` is called once, and one call
-- stops the connection: `Close`, or the end of the context in `DialContext`.
use reactive_commons_go.Base.{
  ℕ, ◌+◌, ◌≡◌, String, Bool, true, false, Option, none, some, eqb, if◌then◌else◌,
}
use reactive_commons_go.Rabbit.Connection.{
  Connection, ConnectionState, idle, connected, reconnecting, stopped, set_health, new_connection,
  is_intentional_close,
}

pub data Dialer : Type 0 where
  ready dialing : Dialer
  -- the dial has succeeded with this connection
  dialed : ℕ → Dialer
  -- it is in `c.conn`
  stored : Dialer
  -- the health has been set; the watcher is still to be started
  reported : Dialer
  returned : Dialer

-- A goroutine that `go c.watchClose(url)` started.
pub data Phase : Type 0 where
  unborn : Phase
  -- it has not read `c.conn`
  attaching : Phase
  watching : ℕ → Phase
  -- in `reconnectLoop`, before it dials
  backing_off redialing : Phase
  redialed : ℕ → Phase
  restored : ℕ → Phase
  kept announced ended : Phase

-- The call that stops the connection.
pub data Closer : Type 0 where
  serving : Closer
  close_marked close_reported : Closer
  close_holds : Option ℕ → Closer
  cancel_marked : Closer
  cancel_holds : Option ℕ → Closer
  cancel_shut : Closer
  finished : Closer

pub record World : Type 0 where
  pub c : Connection
  pub live : ℕ → Bool
  -- how many connections have been dialled, and goroutines started
  pub dialled : ℕ
  pub spawned : ℕ
  pub dialer : Dialer
  pub closer : Closer
  pub phase : ℕ → Phase

abbrev pub set_phase : ℕ → Phase → (ℕ → Phase) → ℕ → Phase
set_phase k p phase j = if eqb k j then p else phase j

abbrev pub set_live : ℕ → Bool → (ℕ → Bool) → ℕ → Bool
set_live n b live m = if eqb n m then b else live m

-- `closeConn`
abbrev pub close_conn : Option ℕ → (ℕ → Bool) → ℕ → Bool
close_conn none live = live
close_conn (some n) live = set_live n false live

abbrev pub with_health : Connection → ConnectionState → Option String → Connection
with_health c s err = record c { health = set_health s err c.health }

pub data Step : World → World → Type 0 where
  -- `Dial`
  dial_starts :
      (w : World)
      → w.dialer ≡ ready
      → w.c.is_stopped ≡ false
      → Step w (record w { dialer = dialing })
  dial_refused :
      (w : World)
      → w.dialer ≡ ready
      → w.c.is_stopped ≡ true
      → Step w (record w { dialer = returned })
  dial_fails :
      (w : World) (err : String)
      → w.dialer ≡ dialing
      → Step w (record w { c = with_health w.c idle (some err); dialer = returned })
  dial_succeeds :
      (w : World)
      → w.dialer ≡ dialing
      → Step w (record w {
        live = set_live w.dialled true w.live;
        dialled = w.dialled + 1;
        dialer = dialed w.dialled;
      })
  dial_stores :
      (w : World) (n : ℕ)
      → w.dialer ≡ dialed n
      → w.c.is_stopped ≡ false
      → Step w (record w { c = record w.c { conn = some n }; dialer = stored })
  dial_discards :
      (w : World) (n : ℕ)
      → w.dialer ≡ dialed n
      → w.c.is_stopped ≡ true
      → Step w (record w {
        c = with_health w.c stopped none;
        live = close_conn (some n) w.live;
        dialer = returned;
      })
  dial_reports :
      (w : World)
      → w.dialer ≡ stored
      → Step w (record w { c = with_health w.c connected none; dialer = reported })
  dial_spawns :
      (w : World)
      → w.dialer ≡ reported
      → Step w (record w {
        dialer = returned;
        phase = set_phase w.spawned attaching w.phase;
        spawned = w.spawned + 1;
      })
  -- `watchClose`
  finds_none :
      (w : World) (k : ℕ)
      → w.phase k ≡ attaching
      → w.c.conn ≡ none
      → Step w (record w { phase = set_phase k ended w.phase })
  attaches :
      (w : World) (k n : ℕ)
      → w.phase k ≡ attaching
      → w.c.conn ≡ some n
      → Step w (record w { phase = set_phase k (watching n) w.phase })
  ends_as_meant :
      (w : World) (k n : ℕ) (closed_err : Option String)
      → w.phase k ≡ watching n
      → w.live n ≡ false
      → is_intentional_close closed_err w.c.is_stopped ≡ true
      → Step w (record w { phase = set_phase k ended w.phase })
  loses :
      (w : World) (k n : ℕ) (closed_err : Option String) (err : String)
      → w.phase k ≡ watching n
      → w.live n ≡ false
      → is_intentional_close closed_err w.c.is_stopped ≡ false
      → Step w (record w {
        c = with_health w.c reconnecting (some err);
        phase = set_phase k backing_off w.phase;
      })
  -- `reconnectLoop`
  aborts :
      (w : World) (k : ℕ)
      → w.phase k ≡ backing_off
      → w.c.is_stopped ≡ true
      → Step w (record w { phase = set_phase k ended w.phase })
  redials :
      (w : World) (k : ℕ)
      → w.phase k ≡ backing_off
      → w.c.is_stopped ≡ false
      → Step w (record w { phase = set_phase k redialing w.phase })
  redial_fails :
      (w : World) (k : ℕ) (err : String)
      → w.phase k ≡ redialing
      → Step w (record w {
        c = with_health w.c reconnecting (some err);
        phase = set_phase k backing_off w.phase;
      })
  redial_succeeds :
      (w : World) (k : ℕ)
      → w.phase k ≡ redialing
      → Step w (record w {
        live = set_live w.dialled true w.live;
        dialled = w.dialled + 1;
        phase = set_phase k (redialed w.dialled) w.phase;
      })
  restores :
      (w : World) (k n : ℕ)
      → w.phase k ≡ redialed n
      → Step w
          (record w { c = record w.c { conn = some n }; phase = set_phase k (restored n) w.phase })
  discards :
      (w : World) (k n : ℕ)
      → w.phase k ≡ restored n
      → w.c.is_stopped ≡ true
      → Step w (record w { live = close_conn (some n) w.live; phase = set_phase k ended w.phase })
  keeps :
      (w : World) (k n : ℕ)
      → w.phase k ≡ restored n
      → w.c.is_stopped ≡ false
      → Step w (record w { phase = set_phase k kept w.phase })
  announces :
      (w : World) (k : ℕ)
      → w.phase k ≡ kept
      → Step w
          (record w { c = with_health w.c connected none; phase = set_phase k announced w.phase })
  -- the next watcher starts, and this goroutine has only the hooks left to run
  hands_over :
      (w : World) (k : ℕ)
      → w.phase k ≡ announced
      → Step w (record w {
        phase = set_phase w.spawned attaching (set_phase k ended w.phase);
        spawned = w.spawned + 1;
      })
  -- the broker or the network closes a connection
  dies : (w : World) (n : ℕ) → Step w (record w { live = close_conn (some n) w.live })
  -- `Close`
  close_marks :
      (w : World)
      → w.closer ≡ serving
      → Step w (record w { c = record w.c { is_stopped = true }; closer = close_marked })
  close_reports :
      (w : World)
      → w.closer ≡ close_marked
      → Step w (record w { c = with_health w.c stopped none; closer = close_reported })
  close_takes :
      (w : World) → w.closer ≡ close_reported → Step w (record w { closer = close_holds w.c.conn })
  close_shuts :
      (w : World) (o : Option ℕ)
      → w.closer ≡ close_holds o
      → Step w (record w { live = close_conn o w.live; closer = finished })
  -- the end of the context in `DialContext`
  cancel_marks :
      (w : World)
      → w.closer ≡ serving
      → Step w (record w { c = record w.c { is_stopped = true }; closer = cancel_marked })
  cancel_takes :
      (w : World)
      → w.closer ≡ cancel_marked
      → Step w (record w { c = record w.c { conn = none }; closer = cancel_holds w.c.conn })
  cancel_shuts :
      (w : World) (o : Option ℕ)
      → w.closer ≡ cancel_holds o
      → Step w (record w { live = close_conn o w.live; closer = cancel_shut })
  cancel_reports :
      (w : World) (err : String)
      → w.closer ≡ cancel_shut
      → Step w (record w { c = with_health w.c stopped (some err); closer = finished })

abbrev pub new_world : World
unfolding new_connection
new_world = record {
  c = new_connection;
  live = λ _. false;
  dialled = 0;
  spawned = 0;
  dialer = ready;
  closer = serving;
  phase = λ _. unborn;
}

pub data Reachable : World → Type 0 where
  starts : Reachable new_world
  and_then : (w v : World) → Reachable w → Step w v → Reachable v
