-- ===== src/Rabbit/Consumer/Running.antt =====
-- internal/rabbit/consumer.go: a consumer that reports itself running is consuming.
use reactive_commons_go.Base.{ℕ, ◌+◌, ◌<◌, ◌≡◌, ◌≢◌, refl, Option, none, some, arith, String}
use reactive_commons_go.Rabbit.Consumer.{
  ConsumerState, stopped, rebuilding, running, SupervisedConsumer, set_health_for_gen,
  set_health_locked, mark_stopped, begin_start, leave,
}
use reactive_commons_go.Rabbit.Consumer.World.{
  Phase, waiting, opening, opened, checked, consuming, healing, reopened, rechecked, exited, failed,
  World, set_phase, gen_of, Step, begins, goes_on, times_out, gives_up, open_fails, opens, drops,
  checks, launches, affirms, dies, retries, reopens, rechecks, resumes, exits, shuts_down,
  Reachable, starts, and_then, new_world,
}

-- The health belongs to the newest call, and says `running` only while that one consumes.
pub record IsHonest (c : SupervisedConsumer) (phase : ℕ → Phase) : Type 0 where
  pub counted : c.run_gen ≡ c.fresh
  pub consumes : c.health.state ≡ running → (n : ℕ) → n + 1 ≡ c.fresh → phase n ≡ consuming
  pub first : c.fresh ≡ 0 → c.health.state ≢ running

set_health_locked-state :
    (s : ConsumerState) (err : Option String) (c : SupervisedConsumer)
    → (set_health_locked s err c.health).state ≡ s
unfolding set_health_locked
set_health_locked-state s (some e) c = refl
set_health_locked-state running none c = refl
set_health_locked-state stopped none c = refl
set_health_locked-state rebuilding none c = refl

health-IsHonest :
    (n : ℕ) (p : Phase) (s : ConsumerState) (err : Option String) (c : SupervisedConsumer)
    (phase : ℕ → Phase)
    → (s ≡ running → p ≡ consuming)
    → IsHonest c phase
    → IsHonest (set_health_for_gen (gen_of n) s err c) (set_phase n p phase)
unfolding set_health_for_gen
health-IsHonest n p s err c phase ok h = record {
  counted = ground (arith, h.counted);
  consumes = λ r m e.
      ground
        (arith, h.counted, h.consumes, h.consumes _ m, r, e, ok, set_health_locked-state s err c);
  first = λ z r. ground (arith, h.counted, h.first, z, r, set_health_locked-state s err c);
}

begin-IsHonest :
    (c : SupervisedConsumer) (phase : ℕ → Phase)
    → c.run_gen + 1 < 18446744073709551616
    → IsHonest c phase
    → IsHonest
        (begin_start c).0
        (set_phase (begin_start c).1.pair (waiting (begin_start c).1.prev) phase)
unfolding begin_start set_health_locked
begin-IsHonest c phase b h = record {
  counted = ground (arith, h.counted, b);
  consumes = λ r m e. absurd (ground (arith, r));
  first = λ z. ground arith;
}

-- A call that was not consuming moves on, with the health as it is.
move-IsHonest :
    (c : SupervisedConsumer) (phase : ℕ → Phase) (n : ℕ) (p : Phase)
    → phase n ≢ consuming
    → IsHonest c phase
    → IsHonest c (set_phase n p phase)
move-IsHonest c phase n p idle h = record {
  counted = h.counted;
  consumes = λ r m e. ground (arith, h.consumes r m e, idle);
  first = h.first;
}

done-IsHonest :
    (c d : SupervisedConsumer) (phase : ℕ → Phase)
    → d.run_gen ≡ c.run_gen
    → d.fresh ≡ c.fresh
    → (d.health.state ≡ running → c.health.state ≡ running)
    → IsHonest c phase
    → IsHonest d phase
done-IsHonest c d phase g f s h = record {
  counted = ground (arith, h.counted, g, f);
  consumes = λ r m e. h.consumes (s r) m (ground (arith, e, f));
  first = λ z r. h.first (ground (arith, z, f)) (s r);
}

stays :
    (n : ℕ) (s : ConsumerState) (err : Option String) (c : SupervisedConsumer) (phase : ℕ → Phase)
    → s ≢ running
    → IsHonest c phase
    → IsHonest (set_health_for_gen (gen_of n) s err c) phase
unfolding set_health_for_gen
stays n s err c phase other h = record {
  counted = ground (arith, h.counted);
  consumes = λ r m e. ground (arith, h.consumes _ m, r, e, other, set_health_locked-state s err c);
  first = λ z r. ground (arith, h.first, z, r, other, set_health_locked-state s err c);
}

Step-IsHonest : (w v : World) → Step w v → IsHonest w.consumer w.phase → IsHonest v.consumer v.phase
unfolding mark_stopped leave set_health_locked
Step-IsHonest _ _ (begins w b) h = begin-IsHonest w.consumer w.phase b h
Step-IsHonest _ _ (goes_on w n p e d) h =
    move-IsHonest w.consumer w.phase n opening (λ f. ground (arith, e, f)) h
Step-IsHonest _ _ (times_out w n q e) h =
    move-IsHonest w.consumer w.phase n opening (λ f. ground (arith, e, f)) h
Step-IsHonest _ _ (gives_up w n p err e) h =
    health-IsHonest n failed stopped (some err) w.consumer w.phase (λ f. ground (arith, f)) h
Step-IsHonest _ _ (open_fails w n err e) h =
    health-IsHonest n failed stopped (some err) w.consumer w.phase (λ f. ground (arith, f)) h
Step-IsHonest _ _ (checks w n e _) h =
    move-IsHonest w.consumer w.phase n checked (λ f. ground (arith, e, f)) h
Step-IsHonest _ _ (opens w n e) h =
    move-IsHonest w.consumer w.phase n opened (λ f. ground (arith, e, f)) h
Step-IsHonest _ _ (drops w n err e) h =
    health-IsHonest n failed stopped err w.consumer w.phase (λ f. ground (arith, f)) h
Step-IsHonest _ _ (affirms w n e) h =
    health-IsHonest n consuming running none w.consumer w.phase (λ _. refl) h
Step-IsHonest _ _ (launches w n e) h =
    health-IsHonest n consuming running none w.consumer w.phase (λ _. refl) h
Step-IsHonest _ _ (dies w n reason e) h =
    health-IsHonest n healing rebuilding (some reason) w.consumer w.phase (λ f. ground (arith, f)) h
Step-IsHonest _ _ (retries w n err e) h =
    stays n rebuilding (some err) w.consumer w.phase (λ f. ground (arith, f)) h
Step-IsHonest _ _ (rechecks w n e _) h =
    move-IsHonest w.consumer w.phase n rechecked (λ f. ground (arith, e, f)) h
Step-IsHonest _ _ (reopens w n e) h =
    move-IsHonest w.consumer w.phase n reopened (λ f. ground (arith, e, f)) h
Step-IsHonest _ _ (resumes w n e) h =
    health-IsHonest n consuming running none w.consumer w.phase (λ _. refl) h
Step-IsHonest _ _ (exits w n err e) h =
    done-IsHonest (set_health_for_gen (gen_of n) stopped err w.consumer)
      (leave n (gen_of n) err w.consumer) (set_phase n exited w.phase) refl refl (λ r. r)
      (health-IsHonest n exited stopped err w.consumer w.phase (λ f. ground (arith, f)) h)
Step-IsHonest _ _ (shuts_down w) h =
    done-IsHonest w.consumer (mark_stopped w.consumer) w.phase refl refl
      (λ r. absurd (ground (arith, r))) h

new_world-IsHonest : IsHonest new_world.consumer new_world.phase
new_world-IsHonest = record {
  counted = refl;
  consumes = λ r n e. absurd (ground (arith, r));
  first = λ z r. ground (arith, r);
}

Reachable-IsHonest : (w : World) → Reachable w → IsHonest w.consumer w.phase
Reachable-IsHonest _ starts = new_world-IsHonest
Reachable-IsHonest _ (and_then w v r s) = Step-IsHonest w v s (Reachable-IsHonest w r)

-- A half-restored listener never looks healthy: whenever the health says running, there is a newest
-- `start` call, and its supervisor is consuming; no step of an older, superseded one can say it.
pub running_is_consuming :
    (w : World)
    → Reachable w
    → w.consumer.health.state ≡ running
    → (w.consumer.fresh ≢ 0) × ((n : ℕ) → n + 1 ≡ w.consumer.fresh → w.phase n ≡ consuming)
running_is_consuming w r e = let h = Reachable-IsHonest w r in (λ z. h.first z e, h.consumes e)
