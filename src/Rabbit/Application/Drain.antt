-- ===== src/Rabbit/Application/Drain.antt =====
-- internal/rabbit/application.go: the two wait groups of the shutdown, as steps. `restoreWg` counts the
-- restores that run, `shutdownWg` the supervisors; the WaitGroups' counters are never negative.
use reactive_commons_go.Base.{ℕ, ◌+◌, ◌<◌, ◌≤◌, ◌≡◌, ◌≢◌, refl, Bool, true, false, arith}

-- Where the goroutine that drains stands.
pub data Waiter : Type 0 where
  -- it has not been started
  serving : Waiter
  -- in `restoreWg.Wait`, in `shutdownWg.Wait`, and past both
  awaits_restores awaits_supervisors drained : Waiter

pub record World : Type 0 where
  pub shutting_down : Bool
  pub restores : ℕ
  pub supervisors : ℕ
  pub waiter : Waiter
  -- `Start` is still in its own `bringUpConsumers`
  pub starting : Bool

pub data Step : World → World → Type 0 where
  -- a listener's start, from `Start` itself or from a restore, adds its supervisor
  starts_one :
      (w : World) → w.starting ≡ true → Step w (record w { supervisors = w.supervisors + 1 })
  is_up : (w : World) → w.starting ≡ true → Step w (record w { starting = false })
  -- the reconnect hook, which is registered once `Start` has brought the consumers up
  hooks :
      (w : World)
      → w.starting ≡ false
      → w.shutting_down ≡ false
      → Step w (record w { restores = w.restores + 1 })
  restores_one :
      (w : World) → 0 < w.restores → Step w (record w { supervisors = w.supervisors + 1 })
  restore_ends : (w : World) (n : ℕ) → w.restores ≡ n + 1 → Step w (record w { restores = n })
  supervisor_ends :
      (w : World) (n : ℕ) → w.supervisors ≡ n + 1 → Step w (record w { supervisors = n })
  -- the context ends
  shuts_down :
      (w : World)
      → w.starting ≡ false
      → w.waiter ≡ serving
      → Step w (record w { shutting_down = true; waiter = awaits_restores })
  restores_awaited :
      (w : World)
      → w.waiter ≡ awaits_restores
      → w.restores ≡ 0
      → Step w (record w { waiter = awaits_supervisors })
  supervisors_awaited :
      (w : World)
      → w.waiter ≡ awaits_supervisors
      → w.supervisors ≡ 0
      → Step w (record w { waiter = drained })

abbrev pub new_world : World
new_world = record {
  shutting_down = false;
  restores = 0;
  supervisors = 0;
  waiter = serving;
  starting = true;
}

pub data Reachable : World → Type 0 where
  starts : Reachable new_world
  and_then : (w v : World) → Reachable w → Step w v → Reachable v

abbrev pub is_awaited : Waiter → Bool
is_awaited awaits_supervisors = true
is_awaited drained = true
is_awaited serving = false
is_awaited awaits_restores = false

record IsOrderly (w : World) : Type 0 where
  ended : w.waiter ≢ serving → w.shutting_down ≡ true
  up : w.shutting_down ≡ true → w.starting ≡ false
  quiet : is_awaited w.waiter ≡ true → w.restores ≡ 0
  empty : w.waiter ≡ drained → w.supervisors ≡ 0

Step-IsOrderly : (w v : World) → Step w v → IsOrderly w → IsOrderly v
Step-IsOrderly _ _ (starts_one w e) h = record {
  ended = λ a. ground (arith, a, h.ended);
  up = λ a. ground (arith, a, h.up, e);
  quiet = λ a. ground (arith, a, h.quiet);
  empty = λ a. ground (arith, a, h.empty, h.up, h.ended, e);
}
Step-IsOrderly _ _ (is_up w e) h = record {
  ended = h.ended;
  up = λ _. refl;
  quiet = h.quiet;
  empty = h.empty;
}
Step-IsOrderly _ _ (hooks w s e) h = record {
  ended = h.ended;
  up = h.up;
  quiet = λ a. ground (arith, a, h.ended, e);
  empty = h.empty;
}
Step-IsOrderly _ _ (restores_one w e) h = record {
  ended = h.ended;
  up = h.up;
  quiet = h.quiet;
  empty = λ a. ground (arith, a, h.quiet, e);
}
Step-IsOrderly _ _ (restore_ends w n e) h = record {
  ended = h.ended;
  up = h.up;
  quiet = λ a. ground (arith, a, h.quiet, e);
  empty = h.empty;
}
Step-IsOrderly _ _ (supervisor_ends w n e) h = record {
  ended = h.ended;
  up = h.up;
  quiet = h.quiet;
  empty = λ a. ground (arith, a, h.empty, e);
}
Step-IsOrderly _ _ (shuts_down w s e) h = record {
  ended = λ _. refl;
  up = λ _. s;
  quiet = λ a. ground (arith, a);
  empty = λ a. ground (arith, a);
}
Step-IsOrderly _ _ (restores_awaited w e z) h = record {
  ended = λ a. h.ended (λ f. ground (arith, e, f));
  up = h.up;
  quiet = λ _. z;
  empty = λ a. ground (arith, a);
}
Step-IsOrderly _ _ (supervisors_awaited w e z) h = record {
  ended = λ a. h.ended (λ f. ground (arith, e, f));
  up = h.up;
  quiet = λ _. h.quiet (ground (arith, e));
  empty = λ _. z;
}

Reachable-IsOrderly : (w : World) → Reachable w → IsOrderly w
Reachable-IsOrderly _ starts = record {
  ended = λ n. absurd (n refl);
  up = λ e. ground (arith, e);
  quiet = λ e. ground (arith, e);
  empty = λ e. ground (arith, e);
}
Reachable-IsOrderly _ (and_then w v r s) = Step-IsOrderly w v s (Reachable-IsOrderly w r)

falls :
    (w v : World)
    → Step w v
    → is_awaited w.waiter ≡ true
    → IsOrderly w
    → (is_awaited v.waiter ≡ true) × (v.supervisors ≤ w.supervisors)
falls _ _ (starts_one w e) a h = absurd (ground (arith, a, e, h.up, h.ended))
falls _ _ (is_up w e) a h = (a, omega arith)
falls _ _ (hooks w s e) a h = (a, omega arith)
falls _ _ (restores_one w e) a h = absurd (ground (arith, a, e, h.quiet))
falls _ _ (restore_ends w n e) a h = (a, omega arith)
falls _ _ (supervisor_ends w n e) a h = (a, omega arith)
falls _ _ (shuts_down w s e) a h = absurd (ground (arith, a, e))
falls _ _ (restores_awaited w e z) a h = (refl, omega arith)
falls _ _ (supervisors_awaited w e z) a h = (refl, omega arith)

-- No supervisor is added to `shutdownWg` once its `Wait` has begun, whatever reconnects happen around
-- the shutdown: from then on no restore runs, no hook starts one, and the count of the supervisors only
-- falls; and after the drain there is none.
pub no_add_after_wait :
    (w v : World)
    → Reachable w
    → is_awaited w.waiter ≡ true
    → Step w v
    → (w.restores ≡ 0)
      × (v.restores ≡ 0)
      × (v.supervisors ≤ w.supervisors)
      × (v.waiter ≡ drained → v.supervisors ≡ 0)
no_add_after_wait w v r a s =
    let h = Reachable-IsOrderly w r in
    let k = Step-IsOrderly w v s h in
    (h.quiet a, k.quiet (falls w v s a h).0, (falls w v s a h).1, k.empty)
