-- ===== src/Rabbit/Application/Restore/Samples.antt =====
-- A run of `restoreWithBackoff` of internal/rabbit/application.go: two attempts fail, the third succeeds.
use reactive_commons_go.Base.{ℕ, ◌≡◌, refl, false, [], ◌∷◌, none, some, arith, ltb, if◌then◌else◌}
use reactive_commons_go.Rabbit.Application.Restore.{
  Round, attempts, waits, restored, initial_backoff, next_backoff, restore_with_backoff, expected,
  restore_with_backoff-ends,
}

abbrev round : ℕ → Round
round k = record {
  superseded = false;
  error = if ltb k 2 then some "no broker" else none;
  cancelled = false;
}

restore_with_backoff-ends_example :
    restore_with_backoff round 5 0 initial_backoff ≡ some (expected round 2 0)
restore_with_backoff-ends_example =
    restore_with_backoff-ends round 2 5 refl (λ k b. ground (arith, b)) (omega arith)

third_time :
    restore_with_backoff round 5 0 initial_backoff
    ≡ some
        (attempts 0 ∷ waits 1000000000 ∷ attempts 1 ∷ waits 2000000000 ∷ attempts 2 ∷ [], restored)
unfolding restore_with_backoff next_backoff
third_time = refl
