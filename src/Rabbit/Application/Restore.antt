-- ===== src/Rabbit/Application/Restore.antt =====
-- internal/rabbit/application.go: `restoreWithBackoff`, and the schedule that it shares with the
-- reconnect loop of connection.go.
mod Samples
use native.Mathlib.Numerals.{towards_suc}
use reactive_commons_go.Base.{
  ℕ, zero, suc, ◌+◌, ◌*◌, ◌^◌, ◌≤◌, ◌<◌, ◌≡◌, refl, ap, sym, ◌∙◌, Bool, true, false, ◌||◌, List, [],
  ◌∷◌, ◌++◌, Option, none, some, String, arith, min, if◌then◌else◌, Bool-cases,
}

-- What the loop meets in one round: a newer restore, the error of the attempt, the end of the context
-- in the wait.
pub record Round : Type 0 where
  pub superseded : Bool
  pub error : Option String
  pub cancelled : Bool

pub data Effect : Type 0 where
  attempts : ℕ → Effect
  -- nanoseconds
  waits : ℕ → Effect

pub data End : Type 0 where
  restored superseded_ cancelled_ : End

abbrev pub initial_backoff : ℕ
initial_backoff = 1000000000

abbrev pub max_backoff : ℕ
max_backoff = 30000000000

-- `min(backoff*2, maxBackoff)`
unfoldable pub next_backoff : ℕ → ℕ
next_backoff backoff = min (backoff * 2) max_backoff

abbrev prepend : List Effect → Option (List Effect × End) → Option (List Effect × End)
prepend es none = none
prepend es (some (fs, end)) = some (es ++ fs, end)

-- The loop from round `i` on, with fuel.
unfoldable pub restore_with_backoff : (ℕ → Round) → ℕ → ℕ → ℕ → Option (List Effect × End)
restore_with_backoff round zero i backoff = none
restore_with_backoff round (suc fuel) i backoff =
    let rest = restore_with_backoff round fuel (i + 1) (next_backoff backoff) in
    if (round i).superseded then some ([], superseded_) else elim (round i).error [
      | none ↦ some (attempts i ∷ [], restored)
      | some e ↦
          if (round i).cancelled
          then some (attempts i ∷ waits backoff ∷ [], cancelled_)
          else prepend (attempts i ∷ waits backoff ∷ []) rest
    ]

-- The wait after attempt `n`.
abbrev pub delay : ℕ → ℕ
delay n = min (initial_backoff * 2 ^ n) max_backoff

next_backoff-delay : (n : ℕ) → next_backoff (delay n) ≡ delay (n + 1)
unfolding next_backoff
next_backoff-delay n = simp towards_suc (omega arith)

-- The round is the loop's last.
abbrev pub is_last : Round → Bool
is_last r = r.superseded || elim r.error [ none ↦ true | some _ ↦ r.cancelled ]

-- The rounds from `i` on, `n` of them before the last one.
pub expected : (ℕ → Round) → ℕ → ℕ → List Effect × End
expected round zero i = if (round i).superseded then ([], superseded_) else elim (round i).error [
  | none ↦ (attempts i ∷ [], restored)
  | some e ↦ (attempts i ∷ waits (delay i) ∷ [], cancelled_)
]
expected round (suc n) i =
    let (effects, end) = expected round n (i + 1) in (attempts i ∷ waits (delay i) ∷ effects, end)

add_zero : (i : ℕ) → i + 0 ≡ i
add_zero i = omega arith

zero_add : (n : ℕ) → 0 + n ≡ n
zero_add n = omega arith

next_round : (i k : ℕ) → i + 1 + k ≡ i + suc k
next_round i k = omega arith

run-expected :
    (round : ℕ → Round) (n i fuel : ℕ)
    → is_last (round (i + n)) ≡ true
    → ((k : ℕ) → k < n → is_last (round (i + k)) ≡ false)
    → n < fuel
    → restore_with_backoff round fuel i (delay i) ≡ some (expected round n i)
unfolding restore_with_backoff expected
run-expected round n i zero last going enough = absurd (omega arith)
run-expected round zero i (suc fuel) last going enough =
    let here = ap (λ j. is_last (round j)) (add_zero i) in ground (arith, here, last)
run-expected round (suc n) i (suc fuel) last going enough =
    let shift = λ (k : ℕ). ap (λ j. is_last (round j)) (next_round i k) in
    let now : is_last (round i) ≡ false =
      sym (ap (λ j. is_last (round j)) (add_zero i)) ∙ going 0 (omega arith) in
    let rest : restore_with_backoff round fuel (i + 1) (next_backoff (delay i))
        ≡ some (expected round n (i + 1)) =
      rw (next_backoff-delay i) (
        run-expected round n (i + 1) fuel (shift n ∙ last)
          (λ k b. shift k ∙ going (suc k) (omega arith)) (omega arith)) in
    ground (arith, now, rest)

-- The loop ends: if some round is the last one, because a newer restore has superseded this one, the
-- attempt succeeds or the context ends in the wait, then any fuel above the number of rounds before the
-- first such round is enough. The attempts and waits are those of the rounds up to it, and the wait
-- after attempt `k` is one second times 2 ^ k, at most 30 seconds.
pub restore_with_backoff-ends :
    (round : ℕ → Round) (n fuel : ℕ)
    → is_last (round n) ≡ true
    → ((k : ℕ) → k < n → is_last (round k) ≡ false)
    → n < fuel
    → restore_with_backoff round fuel 0 initial_backoff ≡ some (expected round n 0)
restore_with_backoff-ends round n fuel last going enough =
    run-expected round n 0 fuel (ap (λ j. is_last (round j)) (zero_add n) ∙ last)
      (λ k b. ap (λ j. is_last (round j)) (zero_add k) ∙ going k b) enough
