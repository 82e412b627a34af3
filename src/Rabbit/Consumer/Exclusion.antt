-- ===== src/Rabbit/Consumer/Exclusion.antt =====
-- internal/rabbit/consumer.go: two supervisors never hold a consumer channel at once.
use reactive_commons_go.Base.{ℕ, ◌≡◌, refl, true, false, none, some, arith}
use reactive_commons_go.Rabbit.Consumer.{
  stopped, rebuilding, running, set_health_for_gen, mark_stopped,
}
use reactive_commons_go.Rabbit.Consumer.World.{
  opening, opened, checked, consuming, healing, reopened, rechecked, failed, World, gen_of, Step,
  begins, goes_on, times_out, gives_up, open_fails, opens, drops, checks, launches, affirms, dies,
  retries, reopens, rechecks, resumes, exits, shuts_down, Reachable, starts, and_then, new_world,
}
use reactive_commons_go.Rabbit.Consumer.Supersession.{
  holds_channel, IsExclusive, same-IsExclusive, move-IsExclusive, kept, begin-IsExclusive,
  leave-IsExclusive, with_health, waited, loosen,
}

Step-IsExclusive :
    (w v : World)
    → Step w v
    → IsExclusive w.consumer w.phase w.outlasted
    → IsExclusive v.consumer v.phase v.outlasted
unfolding mark_stopped
Step-IsExclusive _ _ (begins w b) h = begin-IsExclusive w.consumer w.phase h
Step-IsExclusive _ _ (goes_on w n p e d) h =
    move-IsExclusive w.consumer w.phase n opening (ground (arith, e)) (λ f. ground (arith, e, f))
      (λ q f. ground (arith, f)) (λ o _ m b. waited w n p h e d o m b) h
Step-IsExclusive _ _ (times_out w n q e) h =
    move-IsExclusive w.consumer w.phase n opening (ground (arith, e)) (λ f. ground (arith, e, f))
      (λ q f. ground (arith, f)) (λ o _ m b. absurd (ground (arith, o)))
      (loosen w.consumer w.phase h)
Step-IsExclusive _ _ (gives_up w n p err e) h =
    with_health w n failed stopped (some err) (ground (arith, e)) (λ f. ground (arith, e, f))
      (λ q f. ground (arith, f)) (λ f. ground (arith, e, f)) h
Step-IsExclusive _ _ (open_fails w n err e) h =
    with_health w n failed stopped (some err) (ground (arith, e)) (λ f. ground (arith, e, f))
      (λ q f. ground (arith, f)) (λ f. ground (arith, e, f)) h
Step-IsExclusive _ _ (checks w n e _) h =
    move-IsExclusive w.consumer w.phase n checked (ground (arith, e)) (λ f. ground (arith, e, f))
      (λ q f. ground (arith, f)) (λ o _ m b. h.alone o n m (ground (arith, e)) b) h
Step-IsExclusive _ _ (opens w n e) h =
    move-IsExclusive w.consumer w.phase n opened (ground (arith, e)) (λ f. ground (arith, e, f))
      (λ q f. ground (arith, f)) (λ o _ m b. h.alone o n m (ground (arith, e)) b) h
Step-IsExclusive _ _ (drops w n err e) h =
    with_health w n failed stopped err (ground (arith, e)) (λ f. ground (arith, e, f))
      (λ q f. ground (arith, f)) (λ f. ground (arith, e, f)) h
Step-IsExclusive _ _ (affirms w n e) h =
    with_health w n consuming running none (ground (arith, e)) (λ f. ground (arith, e, f))
      (λ q f. ground (arith, f)) (λ f. ground (arith, e)) h
Step-IsExclusive _ _ (launches w n e) h =
    with_health w n consuming running none (ground (arith, e)) (λ f. ground (arith, e, f))
      (λ q f. ground (arith, f)) (λ f. ground (arith, e)) h
Step-IsExclusive _ _ (dies w n reason e) h =
    with_health w n healing rebuilding (some reason) (ground (arith, e)) (λ f. ground (arith, e, f))
      (λ q f. ground (arith, f)) (λ f. ground (arith, e)) h
Step-IsExclusive _ _ (retries w n err e) h =
    let k = kept (gen_of n) rebuilding (some err) w.consumer in
    same-IsExclusive w.consumer (set_health_for_gen (gen_of n) rebuilding (some err) w.consumer)
      w.phase k.0 k.1 k.2 h
Step-IsExclusive _ _ (rechecks w n e _) h =
    move-IsExclusive w.consumer w.phase n rechecked (ground (arith, e)) (λ f. ground (arith, e, f))
      (λ q f. ground (arith, f)) (λ o _ m b. h.alone o n m (ground (arith, e)) b) h
Step-IsExclusive _ _ (reopens w n e) h =
    move-IsExclusive w.consumer w.phase n reopened (ground (arith, e)) (λ f. ground (arith, e, f))
      (λ q f. ground (arith, f)) (λ o _ m b. h.alone o n m (ground (arith, e)) b) h
Step-IsExclusive _ _ (resumes w n e) h =
    with_health w n consuming running none (ground (arith, e)) (λ f. ground (arith, e, f))
      (λ q f. ground (arith, f)) (λ f. ground (arith, e)) h
Step-IsExclusive _ _ (exits w n err e) h =
    leave-IsExclusive n (gen_of n) err w.consumer w.phase (ground (arith, e)) (ground (arith, e)) h
Step-IsExclusive _ _ (shuts_down w) h =
    same-IsExclusive w.consumer (mark_stopped w.consumer) w.phase refl refl refl h

new_world-IsExclusive : IsExclusive new_world.consumer new_world.phase false
new_world-IsExclusive = record {
  ahead = λ n b. refl;
  latest = refl;
  waits = λ n p e. ground (arith, e);
  done = λ n e. ground (arith, e);
  alone = λ o n m e b. ground (arith, e);
}

pub Reachable-IsExclusive : (w : World) → Reachable w → IsExclusive w.consumer w.phase w.outlasted
Reachable-IsExclusive _ starts = new_world-IsExclusive
Reachable-IsExclusive _ (and_then w v r s) = Step-IsExclusive w v s (Reachable-IsExclusive w r)

-- At most one supervisor has a consumer channel open, whatever the order of starts, failures, channel
-- deaths, heals and shutdowns, if no wait for a superseded supervisor has timed out.
pub one_consumer :
    (w : World) (n m : ℕ)
    → Reachable w
    → w.outlasted ≡ false
    → holds_channel (w.phase n) ≡ true
    → holds_channel (w.phase m) ≡ true
    → n ≡ m
one_consumer w n m r o a b =
    let h = Reachable-IsExclusive w r in ground (arith, a, b, h.alone o n m, h.alone o m n)

-- A `start` that ended without a supervisor (its open failed, its context ended, or it was superseded
-- while opening) never closes its `done` channel, so the call that supersedes it waits until its wait
-- times out or its context ends.
pub failed_never_done :
    (w : World) (n : ℕ) → Reachable w → w.phase n ≡ failed → w.consumer.done_closed n ≡ false
failed_never_done w n r e = ground (arith, (Reachable-IsExclusive w r).done n, e)
