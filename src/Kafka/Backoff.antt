-- ===== src/Kafka/Backoff.antt =====
-- internal/kafka/eventlistener.go, `retryBackoff`: the wait before a retry, in `int64` nanoseconds
-- that wrap.
mod Samples
use native.Mathlib.Nat.{mul_assoc, pow-succ'}
use reactive_commons_go.Base.{
  ℕ, zero, suc, ◌+◌, ◌*◌, ◌^◌, ◌<◌, ◌≤◌, ◌≡◌, refl, sym, ap, subst, ◌∙◌, Bool, true, false, ◌||◌,
  min, if◌then◌else◌, arith, Bool-cases, ltb, ◌⊎◌, inl, inr,
}
use reactive_commons_go.Base.Int.{ℤ, pos, negsuc, pos_part, leb_ℤ, ltb_ℤ, int64}

-- The loop, from a delay `d` that is positive, with what follows it.
unfoldable pub doubled : ℕ → ℕ → ℤ → ℤ
doubled zero d max_delay = if ltb_ℤ max_delay (pos d) then max_delay else pos d
doubled (suc i) d max_delay =
    let d' = int64 (d * 2) in
    let rest = doubled i (pos_part d') max_delay in
    if leb_ℤ d' (pos 0) || leb_ℤ max_delay d' then max_delay else rest

unfoldable pub retry_backoff : ℤ → ℤ → ℤ → ℤ
unfolding doubled
retry_backoff attempt initial max_delay =
    if leb_ℤ initial (pos 0) then pos 0 else doubled (pos_part attempt) (pos_part initial) max_delay

-- d * 2 ^ n by doubling.
pub scaled : ℕ → ℕ → ℕ
scaled zero d = d
scaled (suc n) d = scaled n (d * 2)

scaled-grows : (n d : ℕ) → d ≤ scaled n d
unfolding scaled
scaled-grows zero d = ground arith
scaled-grows (suc n) d = ground (arith, scaled-grows n (d * 2))

scaled-eq-pow : (n d : ℕ) → scaled n d ≡ d * 2 ^ n
unfolding scaled
scaled-eq-pow zero d = ground arith
scaled-eq-pow (suc n) d =
    scaled-eq-pow n (d * 2) ∙ mul_assoc d 2 (2 ^ n) ∙ ap (λ x. d * x) (sym (pow-succ' 2 n))

doubled_lem :
    (n d m : ℕ)
    → 0 < d
    → d < 9223372036854775808
    → m < 9223372036854775808
    → doubled n d (pos m) ≡ pos (min (scaled n d) m)
unfolding doubled scaled
doubled_lem zero d m z b c = ground arith
doubled_lem (suc n) d m z b c = elim (Bool-cases (ltb (d * 2) m)) [
  | inl e ↦ ground (
    arith,
    doubled_lem n (d * 2) m (ground arith) (ground (arith, e, c)) c,
    e,
    scaled-grows n (d * 2),
  )
  | inr e ↦ ground (arith, scaled-grows n (d * 2), e)
]

-- The delay before retry `n + 1` is `initial * 2 ^ n`, capped at the maximum: though the doubling runs
-- in 64 bits and may overflow, for every number of retries and all positive delays.
pub retry_backoff_lem :
    (n i m : ℕ)
    → 0 < i
    → i < 9223372036854775808
    → m < 9223372036854775808
    → retry_backoff (pos n) (pos i) (pos m) ≡ pos (min (i * 2 ^ n) m)
unfolding retry_backoff
retry_backoff_lem n i m z b c = ground (arith, doubled_lem n i m z b c, scaled-eq-pow n i)
