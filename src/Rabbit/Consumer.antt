-- ===== src/Rabbit/Consumer.antt =====
-- internal/rabbit/consumer.go: the supervised consumer's state: the `stop` and `done` channels of each
-- `start` call and the health snapshot. The nth call's pair of channels is number n; times are left out.
pub mod World
pub mod Supersession
pub mod Exclusion
pub mod Running
mod Samples
use reactive_commons_go.Base.{
  ℕ, ◌+◌, ◌%◌, String, Bool, true, false, not, Option, none, some, eqb, if◌then◌else◌,
}

pub data ConsumerState : Type 0 where
  stopped rebuilding running : ConsumerState

pub record ConsumerHealth : Type 0 where
  pub state : ConsumerState
  pub last_error : String

pub record SupervisedConsumer : Type 0 where
  -- the pair that `stop` and `done` hold, and how many pairs have been made
  pub current : Option ℕ
  pub fresh : ℕ
  -- whether a pair's `stop` and its `done` are closed
  pub stop_closed : ℕ → Bool
  pub done_closed : ℕ → Bool
  pub health : ConsumerHealth
  pub run_gen : ℕ

abbrev pub new_supervised_consumer : SupervisedConsumer
new_supervised_consumer = record {
  current = none;
  fresh = 0;
  stop_closed = λ _. false;
  done_closed = λ _. false;
  health = record { state = stopped; last_error = "" };
  run_gen = 0;
}

-- `err` is the error's text, if there is one.
unfoldable pub set_health_locked : ConsumerState → Option String → ConsumerHealth → ConsumerHealth
set_health_locked s (some e) h = record { state = s; last_error = e }
set_health_locked running none h = record { state = running; last_error = "" }
set_health_locked stopped none h = record h { state = stopped }
set_health_locked rebuilding none h = record h { state = rebuilding }

unfoldable pub set_health_for_gen :
    ℕ → ConsumerState → Option String → SupervisedConsumer → SupervisedConsumer
unfolding set_health_locked
set_health_for_gen gen s err c =
    if not (eqb c.run_gen gen) then c else record c { health = set_health_locked s err c.health }

unfoldable pub mark_stopped : SupervisedConsumer → SupervisedConsumer
unfolding set_health_locked
mark_stopped c = record c { health = set_health_locked stopped none c.health }

abbrev pub close : ℕ → (ℕ → Bool) → ℕ → Bool
close n closed m = if eqb n m then true else closed m

abbrev pub close_current : Option ℕ → (ℕ → Bool) → ℕ → Bool
close_current none closed = closed
close_current (some n) closed = close n closed

-- What the critical section at the beginning of `start` hands on.
pub record Begun : Type 0 where
  pub pair : ℕ
  pub gen : ℕ
  pub prev : Option ℕ

-- That critical section.
unfoldable pub begin_start : SupervisedConsumer → SupervisedConsumer × Begun
unfolding set_health_locked
begin_start c =
    let gen = (c.run_gen + 1) % 18446744073709551616 in
    (
      record c {
        current = some c.fresh;
        fresh = c.fresh + 1;
        stop_closed = close_current c.current c.stop_closed;
        health = set_health_locked rebuilding none c.health;
        run_gen = gen;
      },
      record { pair = c.fresh; gen = gen; prev = c.current },
    )

-- The deferred calls of `supervise` once its channel is closed.
unfoldable pub leave : ℕ → ℕ → Option String → SupervisedConsumer → SupervisedConsumer
unfolding set_health_for_gen
leave n gen err c =
    let c' = set_health_for_gen gen stopped err c in
    record c' { done_closed = close n c'.done_closed }
