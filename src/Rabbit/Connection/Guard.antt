-- ===== src/Rabbit/Connection/Guard.antt =====
-- internal/rabbit/connection.go: until the connection is stopped, one goroutine watches it or
-- reconnects, and no second one does.
use reactive_commons_go.Base.{
  ℕ, ◌+◌, ◌-◌, ◌≤◌, ◌<◌, ◌≡◌, ◌≢◌, refl, Bool, true, false, Option, none, some, arith, ltb, String,
}
use reactive_commons_go.Rabbit.Connection.{new_connection, is_intentional_close}
use reactive_commons_go.Rabbit.Connection.Shutdown.{IsShut, Reachable-IsShut}
use reactive_commons_go.Rabbit.Connection.World.{
  Dialer, ready, dialing, dialed, stored, reported, returned, Phase, unborn, watching, backing_off,
  redialing, redialed, restored, kept, announced, ended, World, set_phase, Step, dial_starts,
  dial_refused, dial_fails, dial_succeeds, dial_stores, dial_discards, dial_reports, dial_spawns,
  finds_none, attaches, ends_as_meant, loses, aborts, redials, redial_fails, redial_succeeds,
  restores, discards, keeps, announces, hands_over, dies, close_marks, close_reports, close_takes,
  close_shuts, cancel_marks, cancel_takes, cancel_shuts, cancel_reports, Reachable, starts,
  and_then,
}

-- The goroutine watches a connection, or is about to, or reconnects.
abbrev pub is_guarding : Phase → Bool
is_guarding unborn = false
is_guarding ended = false
is_guarding _ = true

abbrev pub is_returned : Dialer → Bool
is_returned returned = true
is_returned _ = false

-- Only the newest goroutine guards the connection, and it ends without a successor only once the
-- connection is stopped.
pub record IsGuarded (is_stopped : Bool) (dialer : Dialer) (spawned : ℕ) (phase : ℕ → Phase)
    : Type 0 where
  pub young : (k : ℕ) → spawned ≤ k → phase k ≡ unborn
  pub old : (k : ℕ) → k + 1 < spawned → phase k ≡ ended
  pub before : is_returned dialer ≡ false → spawned ≡ 0
  pub newest : is_stopped ≡ false → (k : ℕ) → k + 1 ≡ spawned → is_guarding (phase k) ≡ true
  pub present : (k : ℕ) → k + 1 ≡ spawned → phase k ≢ unborn

module _ {is_stopped : Bool} {dialer : Dialer} {spawned : ℕ} {phase : ℕ → Phase} where
  pub guarding-newest :
      IsGuarded is_stopped dialer spawned phase
      → (k : ℕ) → is_guarding (phase k) ≡ true
      → k + 1 ≡ spawned
  guarding-newest h k g = ground (arith, h.young k, h.old k, g)

  -- The newest goroutine goes on, or ends after the stop.
  move-IsGuarded :
      (k : ℕ) (p : Phase)
      → is_guarding (phase k) ≡ true
      → p ≢ unborn
      → (is_stopped ≡ false → is_guarding p ≡ true)
      → IsGuarded is_stopped dialer spawned phase
      → IsGuarded is_stopped dialer spawned (set_phase k p phase)
  move-IsGuarded k p g born guards h =
      let n = guarding-newest h k g in
      record {
        young = λ j b. ground (arith, n, b, h.young j);
        old = λ j b. ground (arith, n, b, h.old j);
        before = h.before;
        newest = λ s j e. ground (arith, n, e, s, guards s, h.newest s j);
        present = λ j e. ground (arith, n, e, born, h.present j e);
      }

  -- `Dial` goes on, or the connection is stopped.
  stay-IsGuarded :
      (s : Bool) (d : Dialer)
      → (s ≡ false → is_stopped ≡ false)
      → (is_returned d ≡ false → is_returned dialer ≡ false)
      → IsGuarded is_stopped dialer spawned phase
      → IsGuarded s d spawned phase
  stay-IsGuarded s d still early h = record {
    young = h.young;
    old = h.old;
    before = λ e. h.before (early e);
    newest = λ e. h.newest (still e);
    present = h.present;
  }

-- Once `Dial` has stored a connection there is one, until the connection is stopped.
abbrev has_dialled : Dialer → ℕ → Bool
has_dialled ready spawned = false
has_dialled dialing spawned = false
has_dialled (dialed _) spawned = false
has_dialled stored spawned = true
has_dialled reported spawned = true
has_dialled returned spawned = ltb 0 spawned

abbrev HasConn : World → Type 0
HasConn w = w.c.is_stopped ≡ false → has_dialled w.dialer w.spawned ≡ true → w.c.conn ≢ none

unmeant :
    (err : Option String) (is_stopped : Bool)
    → is_intentional_close err is_stopped ≡ true
    → is_stopped ≡ false
    → ⊥
unfolding is_intentional_close
unmeant none is_stopped i s = ground (arith, i, s)
unmeant (some e) is_stopped i s = ground (arith, i)

Step-IsGuarded :
    (w v : World)
    → Step w v
    → HasConn w
    → IsGuarded w.c.is_stopped w.dialer w.spawned w.phase
    → IsGuarded v.c.is_stopped v.dialer v.spawned v.phase
Step-IsGuarded _ _ (dial_starts w e s) x h =
    stay-IsGuarded w.c.is_stopped dialing (λ f. f) (λ f. ground (arith, e)) h
Step-IsGuarded _ _ (dial_refused w e s) x h =
    stay-IsGuarded w.c.is_stopped returned (λ f. f) (λ f. ground (arith, f)) h
Step-IsGuarded _ _ (dial_fails w err e) x h =
    stay-IsGuarded w.c.is_stopped returned (λ f. f) (λ f. ground (arith, f)) h
Step-IsGuarded _ _ (dial_succeeds w e) x h =
    stay-IsGuarded w.c.is_stopped (dialed w.dialled) (λ f. f) (λ f. ground (arith, e)) h
Step-IsGuarded _ _ (dial_stores w n e s) x h =
    stay-IsGuarded w.c.is_stopped stored (λ f. f) (λ f. ground (arith, e)) h
Step-IsGuarded _ _ (dial_discards w n e s) x h =
    stay-IsGuarded w.c.is_stopped returned (λ f. f) (λ f. ground (arith, f)) h
Step-IsGuarded _ _ (dial_reports w e) x h =
    stay-IsGuarded w.c.is_stopped reported (λ f. f) (λ f. ground (arith, e)) h
Step-IsGuarded _ _ (dial_spawns w e) x h =
    let z : w.spawned ≡ 0 = h.before (ground (arith, e)) in
    record {
      young = λ j b. ground (arith, b, h.young j);
      old = λ j b. ground (arith, b, z);
      before = λ f. ground (arith, f);
      newest = λ s j f. ground (arith, f);
      present = λ j f. ground (arith, f);
    }
Step-IsGuarded _ _ (finds_none w k e c) x h =
    let n = guarding-newest h k (ground (arith, e)) in
    move-IsGuarded k ended (ground (arith, e)) (λ f. ground (arith, f))
      (λ s. absurd (x s (ground (arith, n, h.before)) c)) h
Step-IsGuarded _ _ (attaches w k n e c) x h =
    move-IsGuarded k (watching n) (ground (arith, e)) (λ f. ground (arith, f)) (λ _. refl) h
Step-IsGuarded _ _ (ends_as_meant w k n err e l i) x h =
    move-IsGuarded k ended (ground (arith, e)) (λ f. ground (arith, f))
      (λ s. absurd (unmeant err w.c.is_stopped i s)) h
Step-IsGuarded _ _ (loses w k n err text e l i) x h =
    move-IsGuarded k backing_off (ground (arith, e)) (λ f. ground (arith, f)) (λ _. refl) h
Step-IsGuarded _ _ (aborts w k e s) x h =
    move-IsGuarded k ended (ground (arith, e)) (λ f. ground (arith, f)) (λ f. ground (arith, s, f))
      h
Step-IsGuarded _ _ (redials w k e s) x h =
    move-IsGuarded k redialing (ground (arith, e)) (λ f. ground (arith, f)) (λ _. refl) h
Step-IsGuarded _ _ (redial_fails w k err e) x h =
    move-IsGuarded k backing_off (ground (arith, e)) (λ f. ground (arith, f)) (λ _. refl) h
Step-IsGuarded _ _ (redial_succeeds w k e) x h =
    move-IsGuarded k (redialed w.dialled) (ground (arith, e)) (λ f. ground (arith, f)) (λ _. refl) h
Step-IsGuarded _ _ (restores w k n e) x h =
    move-IsGuarded k (restored n) (ground (arith, e)) (λ f. ground (arith, f)) (λ _. refl) h
Step-IsGuarded _ _ (discards w k n e s) x h =
    move-IsGuarded k ended (ground (arith, e)) (λ f. ground (arith, f)) (λ f. ground (arith, s, f))
      h
Step-IsGuarded _ _ (keeps w k n e s) x h =
    move-IsGuarded k kept (ground (arith, e)) (λ f. ground (arith, f)) (λ _. refl) h
Step-IsGuarded _ _ (announces w k e) x h =
    move-IsGuarded k announced (ground (arith, e)) (λ f. ground (arith, f)) (λ _. refl) h
Step-IsGuarded _ _ (hands_over w k e) x h =
    let n = guarding-newest h k (ground (arith, e)) in
    record {
      young = λ j b. ground (arith, b, n, h.young j);
      old = λ j b. ground (arith, b, n, h.old j);
      before = λ f. ground (arith, n, h.before f);
      newest = λ s j f. ground (arith, f);
      present = λ j f. ground (arith, f);
    }
Step-IsGuarded _ _ (dies w n) x h = h
Step-IsGuarded _ _ (close_marks w e) x h =
    stay-IsGuarded true w.dialer (λ f. ground (arith, f)) (λ f. f) h
Step-IsGuarded _ _ (close_reports w e) x h = h
Step-IsGuarded _ _ (close_takes w e) x h = h
Step-IsGuarded _ _ (close_shuts w o e) x h = h
Step-IsGuarded _ _ (cancel_marks w e) x h =
    stay-IsGuarded true w.dialer (λ f. ground (arith, f)) (λ f. f) h
Step-IsGuarded _ _ (cancel_takes w e) x h = h
Step-IsGuarded _ _ (cancel_shuts w o e) x h = h
Step-IsGuarded _ _ (cancel_reports w err e) x h = h

Step-HasConn :
    (w v : World)
    → Step w v
    → IsGuarded w.c.is_stopped w.dialer w.spawned w.phase
    → IsShut w.c w.closer
    → HasConn w
    → HasConn v
Step-HasConn _ _ (dial_starts w e s) h c x = λ s d. ground (arith, d)
Step-HasConn _ _ (dial_refused w e s) h c x = λ f d. ground (arith, s, f)
Step-HasConn _ _ (dial_fails w err e) h c x = λ s d. ground (arith, d, e, h.before)
Step-HasConn _ _ (dial_succeeds w e) h c x = λ s d. ground (arith, d)
Step-HasConn _ _ (dial_stores w n e s) h c x = λ s d f. ground (arith, f)
Step-HasConn _ _ (dial_discards w n e s) h c x = λ f d. ground (arith, s, f)
Step-HasConn _ _ (dial_reports w e) h c x = λ s d. x s (ground (arith, e))
Step-HasConn _ _ (dial_spawns w e) h c x = λ s d. x s (ground (arith, e))
Step-HasConn _ _ (finds_none w k e f) h c x = x
Step-HasConn _ _ (attaches w k n e f) h c x = x
Step-HasConn _ _ (ends_as_meant w k n err e l i) h c x = x
Step-HasConn _ _ (loses w k n err text e l i) h c x = x
Step-HasConn _ _ (aborts w k e s) h c x = x
Step-HasConn _ _ (redials w k e s) h c x = x
Step-HasConn _ _ (redial_fails w k err e) h c x = x
Step-HasConn _ _ (redial_succeeds w k e) h c x = x
Step-HasConn _ _ (restores w k n e) h c x = λ s d f. ground (arith, f)
Step-HasConn _ _ (discards w k n e s) h c x = x
Step-HasConn _ _ (keeps w k n e s) h c x = x
Step-HasConn _ _ (announces w k e) h c x = x
Step-HasConn _ _ (hands_over w k e) h c x =
    let n = guarding-newest h k (ground (arith, e)) in λ s d. x s (ground (arith, n, h.before, d))
Step-HasConn _ _ (dies w n) h c x = x
Step-HasConn _ _ (close_marks w e) h c x = λ s. ground (arith, s)
Step-HasConn _ _ (close_reports w e) h c x = x
Step-HasConn _ _ (close_takes w e) h c x = x
Step-HasConn _ _ (close_shuts w o e) h c x = x
Step-HasConn _ _ (cancel_marks w e) h c x = λ s. ground (arith, s)
Step-HasConn _ _ (cancel_takes w e) h c x =
    λ s. ground (arith, s, c.closes (λ f. ground (arith, e, f)))
Step-HasConn _ _ (cancel_shuts w o e) h c x = x
Step-HasConn _ _ (cancel_reports w err e) h c x = x

-- The two together.
pub Reachable-IsGuarded :
    (w : World) → Reachable w → IsGuarded w.c.is_stopped w.dialer w.spawned w.phase × HasConn w
unfolding new_connection
Reachable-IsGuarded _ starts = (
  record {
    young = λ k b. refl;
    old = λ k b. absurd (omega arith);
    before = λ _. refl;
    newest = λ s k e. absurd (omega arith);
    present = λ k e. absurd (omega arith);
  },
  λ s d. ground (arith, d),
)
Reachable-IsGuarded _ (and_then w v r s) =
    let (h, x) = Reachable-IsGuarded w r in
    (Step-IsGuarded w v s x h, Step-HasConn w v s h (Reachable-IsShut w r) x)

-- Until the connection is stopped, one goroutine, and no second one, watches it or reconnects it, from
-- the end of a successful `Dial` on: no loss goes unnoticed, and no two goroutines reconnect at once.
pub one_watcher :
    (w : World)
    → Reachable w
    → (w.c.is_stopped ≡ false → w.spawned ≢ 0 → (k : ℕ) × (is_guarding (w.phase k) ≡ true))
      × ((k l : ℕ) → is_guarding (w.phase k) ≡ true → is_guarding (w.phase l) ≡ true → k ≡ l)
one_watcher w r =
    let h = (Reachable-IsGuarded w r).0 in
    (
      λ s n. (w.spawned - 1, h.newest s (w.spawned - 1) (omega (arith, n))),
      λ k l a b. omega (arith, guarding-newest h k a, guarding-newest h l b),
    )
