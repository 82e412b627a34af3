-- ===== src/Rabbit/Connection/Shutdown.antt =====
-- internal/rabbit/connection.go: what the call that stops the connection leaves.
use reactive_commons_go.Base.{
  ℕ, ◌≡◌, ◌≢◌, refl, Bool, true, false, Option, none, some, arith, String,
}
use reactive_commons_go.Rabbit.Connection.{
  Connection, ConnectionState, ConnectionHealth, idle, connected, reconnecting, stopped, set_health,
  is_open, new_connection,
}
use reactive_commons_go.Rabbit.Connection.World.{
  Closer, serving, close_marked, close_reported, close_holds, cancel_marked, cancel_holds,
  cancel_shut, finished, World, with_health, Step, dial_starts, dial_refused, dial_fails,
  dial_succeeds, dial_stores, dial_discards, dial_reports, dial_spawns, finds_none, attaches,
  ends_as_meant, loses, aborts, redials, redial_fails, redial_succeeds, restores, discards, keeps,
  announces, hands_over, dies, close_marks, close_reports, close_takes, close_shuts, cancel_marks,
  cancel_takes, cancel_shuts, cancel_reports, Reachable, starts, and_then,
}

set_health-stays :
    (s : ConnectionState) (err : Option String) (h : ConnectionHealth)
    → h.state ≡ stopped
    → (set_health s err h).state ≡ stopped
unfolding set_health
set_health-stays s err h e = ground (arith, e)

set_health-told :
    (err : Option String) (h : ConnectionHealth) → (set_health stopped err h).state ≡ stopped
unfolding set_health
set_health-told err h = ground arith

set_health-quiet :
    (s : ConnectionState) (err : Option String) (h : ConnectionHealth)
    → s ≢ stopped
    → (set_health s err h).state ≡ stopped
    → h.state ≡ stopped
unfolding set_health
set_health-quiet s err h n e = ground (arith, n, e)

-- The stopping call has set the health.
abbrev is_told : Closer → Bool
is_told close_reported = true
is_told (close_holds _) = true
is_told finished = true
is_told serving = false
is_told close_marked = false
is_told cancel_marked = false
is_told (cancel_holds _) = false
is_told cancel_shut = false

pub record IsShut (c : Connection) (closer : Closer) : Type 0 where
  pub serves : closer ≡ serving → c.is_stopped ≡ false
  pub closes : closer ≢ serving → c.is_stopped ≡ true
  pub quiet : c.health.state ≡ stopped → c.is_stopped ≡ true
  pub told : is_told closer ≡ true → c.health.state ≡ stopped

health-IsShut :
    (w : World) (s : ConnectionState) (err : Option String)
    → (s ≡ stopped → w.c.is_stopped ≡ true)
    → IsShut w.c w.closer
    → IsShut (with_health w.c s err) w.closer
health-IsShut w s err n h = record {
  serves = h.serves;
  closes = h.closes;
  quiet = λ e. ground (arith, n, h.quiet, e, set_health-quiet s err w.c.health);
  told = λ t. set_health-stays s err w.c.health (h.told t);
}

conn-IsShut :
    (c : Connection) (o : Option ℕ) (closer : Closer)
    → IsShut c closer
    → IsShut (record c { conn = o }) closer
conn-IsShut c o closer h = record {
  serves = h.serves;
  closes = h.closes;
  quiet = h.quiet;
  told = h.told;
}

Step-IsShut : (w v : World) → Step w v → IsShut w.c w.closer → IsShut v.c v.closer
Step-IsShut _ _ (dial_starts w e s) h = h
Step-IsShut _ _ (dial_refused w e s) h = h
Step-IsShut _ _ (dial_fails w err e) h = health-IsShut w idle (some err) (λ f. ground (arith, f)) h
Step-IsShut _ _ (dial_succeeds w e) h = h
Step-IsShut _ _ (dial_stores w n e s) h = conn-IsShut w.c (some n) w.closer h
Step-IsShut _ _ (dial_discards w n e s) h = health-IsShut w stopped none (λ _. s) h
Step-IsShut _ _ (dial_reports w e) h = health-IsShut w connected none (λ f. ground (arith, f)) h
Step-IsShut _ _ (dial_spawns w e) h = h
Step-IsShut _ _ (finds_none w k e c) h = h
Step-IsShut _ _ (attaches w k n e c) h = h
Step-IsShut _ _ (ends_as_meant w k n err e l i) h = h
Step-IsShut _ _ (loses w k n err text e l i) h =
    health-IsShut w reconnecting (some text) (λ f. ground (arith, f)) h
Step-IsShut _ _ (aborts w k e s) h = h
Step-IsShut _ _ (redials w k e s) h = h
Step-IsShut _ _ (redial_fails w k err e) h =
    health-IsShut w reconnecting (some err) (λ f. ground (arith, f)) h
Step-IsShut _ _ (redial_succeeds w k e) h = h
Step-IsShut _ _ (restores w k n e) h = conn-IsShut w.c (some n) w.closer h
Step-IsShut _ _ (discards w k n e s) h = h
Step-IsShut _ _ (keeps w k n e s) h = h
Step-IsShut _ _ (announces w k e) h = health-IsShut w connected none (λ f. ground (arith, f)) h
Step-IsShut _ _ (hands_over w k e) h = h
Step-IsShut _ _ (dies w n) h = h
Step-IsShut _ _ (close_marks w e) h = record {
  serves = λ f. ground (arith, f);
  closes = λ _. refl;
  quiet = λ _. refl;
  told = λ f. ground (arith, f);
}
Step-IsShut _ _ (close_reports w e) h =
    let s = h.closes (λ f. ground (arith, e, f)) in
    record {
      serves = λ f. ground (arith, f);
      closes = λ _. s;
      quiet = λ _. s;
      told = λ _. set_health-told none w.c.health;
    }
Step-IsShut _ _ (close_takes w e) h = record {
  serves = λ f. ground (arith, f);
  closes = λ _. h.closes (λ f. ground (arith, e, f));
  quiet = h.quiet;
  told = λ _. h.told (ground (arith, e));
}
Step-IsShut _ _ (close_shuts w o e) h = record {
  serves = λ f. ground (arith, f);
  closes = λ _. h.closes (λ f. ground (arith, e, f));
  quiet = h.quiet;
  told = λ _. h.told (ground (arith, e));
}
Step-IsShut _ _ (cancel_marks w e) h = record {
  serves = λ f. ground (arith, f);
  closes = λ _. refl;
  quiet = λ _. refl;
  told = λ f. ground (arith, f);
}
Step-IsShut _ _ (cancel_takes w e) h = record {
  serves = λ f. ground (arith, f);
  closes = λ _. h.closes (λ f. ground (arith, e, f));
  quiet = h.quiet;
  told = λ f. ground (arith, f);
}
Step-IsShut _ _ (cancel_shuts w o e) h = record {
  serves = λ f. ground (arith, f);
  closes = λ _. h.closes (λ f. ground (arith, e, f));
  quiet = h.quiet;
  told = λ f. ground (arith, f);
}
Step-IsShut _ _ (cancel_reports w err e) h =
    let s = h.closes (λ f. ground (arith, e, f)) in
    record {
      serves = λ f. ground (arith, f);
      closes = λ _. s;
      quiet = λ _. s;
      told = λ _. set_health-told (some err) w.c.health;
    }

pub Reachable-IsShut : (w : World) → Reachable w → IsShut w.c w.closer
unfolding new_connection
Reachable-IsShut _ starts = record {
  serves = λ _. refl;
  closes = λ n. absurd (n refl);
  quiet = λ e. ground (arith, e);
  told = λ e. ground (arith, e);
}
Reachable-IsShut _ (and_then w v r s) = Step-IsShut w v s (Reachable-IsShut w r)

-- Stopped is terminal: once the call that stops the connection is over, the health says stopped and
-- `IsOpen` false, whatever dials, losses and reconnects still end later; and the health never says
-- stopped before such a call.
pub finished_is_stopped :
    (w : World)
    → Reachable w
    → (w.closer ≡ finished → (w.c.health.state ≡ stopped) × (is_open w.live w.c ≡ false))
      × (w.closer ≡ serving → w.c.health.state ≢ stopped)
unfolding is_open
finished_is_stopped w r =
    let h = Reachable-IsShut w r in
    (
      λ e. (h.told (ground (arith, e)), ground (arith, e, h.closes)),
      λ e f. ground (arith, h.serves e, h.quiet f),
    )
