-- ===== src/Rabbit/Consumer/Samples.antt =====
-- Runs of internal/rabbit/consumer.go: a start that succeeds, and one whose open fails.
use reactive_commons_go.Base.{ℕ, ◌+◌, ◌≡◌, ◌≢◌, refl, false, none, some, arith}
use reactive_commons_go.Rabbit.Consumer.{
  stopped, running, set_health_for_gen, set_health_locked, begin_start,
}
use reactive_commons_go.Rabbit.Consumer.World.{
  waiting, opening, opened, checked, consuming, failed, World, set_phase, begins, goes_on, opens,
  checks, launches, open_fails, Reachable, starts, and_then, new_world,
}
use reactive_commons_go.Rabbit.Consumer.Exclusion.{one_consumer}
use reactive_commons_go.Rabbit.Consumer.Running.{running_is_consuming}

abbrev w1 : World
w1 = record {
  outlasted = false;
  consumer = (begin_start new_world.consumer).0;
  phase =
      set_phase (begin_start new_world.consumer).1.pair
        (waiting (begin_start new_world.consumer).1.prev) new_world.phase;
}

abbrev w2 : World
w2 = record w1 { phase = set_phase 0 opening w1.phase }

abbrev w3 : World
w3 = record w2 { phase = set_phase 0 opened w2.phase }

abbrev w3b : World
w3b = record w3 { phase = set_phase 0 checked w3.phase }

abbrev w4 : World
w4 = record w3b {
  consumer = set_health_for_gen 1 running none w3b.consumer;
  phase = set_phase 0 consuming w3b.phase;
}

abbrev w5 : World
w5 = record w2 {
  consumer = set_health_for_gen 1 stopped (some "no broker") w2.consumer;
  phase = set_phase 0 failed w2.phase;
}

reachable1 : Reachable w1
reachable1 = and_then new_world w1 starts (begins new_world (ground arith))

reachable2 : Reachable w2
unfolding begin_start
reachable2 = and_then w1 w2 reachable1 (goes_on w1 0 none refl (λ q e. absurd (ground (arith, e))))

reachable4 : Reachable w4
unfolding begin_start
reachable4 =
    let r = and_then w2 w3 reachable2 (opens w2 0 refl) in
    and_then w3b w4 (and_then w3 w3b r (checks w3 0 refl refl)) (launches w3b 0 refl)

reachable5 : Reachable w5
unfolding begin_start
reachable5 = and_then w2 w5 reachable2 (open_fails w2 0 "no broker" refl)

one_consumer_example : ◌≡◌ {A = ℕ} 0 0
unfolding begin_start
one_consumer_example = one_consumer w4 0 0 reachable4 refl refl refl

running_is_consuming_example :
    (w4.consumer.fresh ≢ 0) × ((n : ℕ) → n + 1 ≡ w4.consumer.fresh → w4.phase n ≡ consuming)
unfolding begin_start set_health_for_gen set_health_locked
running_is_consuming_example = running_is_consuming w4 reachable4 refl
