-- ===== src/Rabbit/Consumer/World.antt =====
-- internal/rabbit/consumer.go: `start` calls and their supervisors side by side, as steps. The wait for
-- a superseded supervisor ends when that one is done, with the context, or after `supersedeWait`, which
-- the code accepts as a possible duplicate delivery and the world keeps a note of.
use reactive_commons_go.Base.{
  false, Bool, ℕ, ◌+◌, ◌<◌, ◌≡◌, ◌⊎◌, String, true, Option, none, some, eqb, if◌then◌else◌,
}
use reactive_commons_go.Rabbit.Consumer.{
  stopped, rebuilding, running, SupervisedConsumer, new_supervised_consumer, set_health_for_gen,
  mark_stopped, begin_start, leave,
}

-- Where a `start` call or its supervisor stands.
pub data Phase : Type 0 where
  unborn : Phase
  -- in the wait for the superseded supervisor, if there is one
  waiting : Option ℕ → Phase
  opening opened : Phase
  -- found not to be superseded, though it may be by the time it goes on
  checked : Phase
  consuming healing reopened rechecked exited failed : Phase

pub record World : Type 0 where
  pub consumer : SupervisedConsumer
  pub phase : ℕ → Phase
  -- some wait has timed out
  pub outlasted : Bool

abbrev pub set_phase : ℕ → Phase → (ℕ → Phase) → ℕ → Phase
set_phase n p phase m = if eqb n m then p else phase m

-- The generation of the nth call: both are counted under the same lock.
abbrev pub gen_of : ℕ → ℕ
gen_of n = n + 1

pub data Step : World → World → Type 0 where
  begins :
      (w : World)
      → w.consumer.run_gen + 1 < 18446744073709551616
      → Step w (record w {
        consumer = (begin_start w.consumer).0;
        phase =
            set_phase
              (begin_start w.consumer).1.pair
              (waiting (begin_start w.consumer).1.prev)
              w.phase;
      })
  goes_on :
      (w : World) (n : ℕ) (p : Option ℕ)
      → w.phase n ≡ waiting p
      → ((q : ℕ) → p ≡ some q → w.consumer.done_closed q ≡ true)
      → Step w (record w { phase = set_phase n opening w.phase })
  -- `supersedeWait` is over, and the superseded supervisor is not done
  times_out :
      (w : World) (n q : ℕ)
      → w.phase n ≡ waiting (some q)
      → Step w (record w { phase = set_phase n opening w.phase; outlasted = true })
  gives_up :
      (w : World) (n : ℕ) (p : Option ℕ) (err : String)
      → w.phase n ≡ waiting p
      → Step w (record w {
        consumer = set_health_for_gen (gen_of n) stopped (some err) w.consumer;
        phase = set_phase n failed w.phase;
      })
  open_fails :
      (w : World) (n : ℕ) (err : String)
      → w.phase n ≡ opening
      → Step w (record w {
        consumer = set_health_for_gen (gen_of n) stopped (some err) w.consumer;
        phase = set_phase n failed w.phase;
      })
  opens :
      (w : World) (n : ℕ)
      → w.phase n ≡ opening
      → Step w (record w { phase = set_phase n opened w.phase })
  -- the context has ended, or a newer call has closed `stop`
  drops :
      (w : World) (n : ℕ) (err : Option String)
      → w.phase n ≡ opened
      → Step w (record w {
        consumer = set_health_for_gen (gen_of n) stopped err w.consumer;
        phase = set_phase n failed w.phase;
      })
  checks :
      (w : World) (n : ℕ)
      → w.phase n ≡ opened
      → w.consumer.stop_closed n ≡ false
      → Step w (record w { phase = set_phase n checked w.phase })
  launches :
      (w : World) (n : ℕ)
      → w.phase n ≡ checked
      → Step w (record w {
        consumer = set_health_for_gen (gen_of n) running none w.consumer;
        phase = set_phase n consuming w.phase;
      })
  -- the supervisor says again that it is running, as it enters its loop
  affirms :
      (w : World) (n : ℕ)
      → w.phase n ≡ consuming
      → Step w (record w {
        consumer = set_health_for_gen (gen_of n) running none w.consumer;
        phase = set_phase n consuming w.phase;
      })
  -- the channel dies, with a reason: the library sends no nil error to a close listener
  dies :
      (w : World) (n : ℕ) (reason : String)
      → w.phase n ≡ consuming
      → Step w (record w {
        consumer = set_health_for_gen (gen_of n) rebuilding (some reason) w.consumer;
        phase = set_phase n healing w.phase;
      })
  -- the topology or the channel cannot be restored yet
  retries :
      (w : World) (n : ℕ) (err : String)
      → w.phase n ≡ healing
      → Step w
          (record w { consumer = set_health_for_gen (gen_of n) rebuilding (some err) w.consumer })
  reopens :
      (w : World) (n : ℕ)
      → w.phase n ≡ healing
      → Step w (record w { phase = set_phase n reopened w.phase })
  rechecks :
      (w : World) (n : ℕ)
      → w.phase n ≡ reopened
      → w.consumer.stop_closed n ≡ false
      → Step w (record w { phase = set_phase n rechecked w.phase })
  resumes :
      (w : World) (n : ℕ)
      → w.phase n ≡ rechecked
      → Step w (record w {
        consumer = set_health_for_gen (gen_of n) running none w.consumer;
        phase = set_phase n consuming w.phase;
      })
  -- the context has ended, `stop` is closed, or the connection is down
  exits :
      (w : World) (n : ℕ) (err : Option String)
      → (w.phase n ≡ consuming) ⊎ (w.phase n ≡ healing) ⊎ (w.phase n ≡ reopened)
      → Step w (record w {
        consumer = leave n (gen_of n) err w.consumer;
        phase = set_phase n exited w.phase;
      })
  shuts_down : (w : World) → Step w (record w { consumer = mark_stopped w.consumer })

abbrev pub new_world : World
new_world = record { consumer = new_supervised_consumer; phase = λ _. unborn; outlasted = false }

pub data Reachable : World → Type 0 where
  starts : Reachable new_world
  and_then : (w v : World) → Reachable w → Step w v → Reachable v
