-- ===== src/Public.antt =====
-- rabbit and kafka, the public packages: the defaults of their configurations and the check of them.
pub mod Rabbit
pub mod Kafka
mod Samples
use Prim.Native.String.{◌++◌ as append}
use reactive_commons_go.Base.{
  ℕ, zero, suc, ◌<◌, String, ◌≡◌, ◌≢◌, refl, Bool, true, false, arith, if◌then◌else◌, is_empty,
  Bool-cases,
}
use reactive_commons_go.Base.Int.{ℤ, pos, negsuc, leb_ℤ, ltb_ℤ}

unfoldable pub is_zero : ℤ → Bool
is_zero (pos zero) = true
is_zero (pos (suc n)) = false
is_zero (negsuc n) = false

-- `if x == 0 { x = d }`
unfoldable pub or_number : ℤ → ℤ → ℤ
or_number d (pos zero) = d
or_number d (pos (suc n)) = pos (suc n)
or_number d (negsuc n) = negsuc n

-- `if s == "" { s = d }`
unfoldable pub or_text : String → String → String
or_text d s = if is_empty s then d else s

pub or_number-twice : (d x : ℤ) → d ≢ pos 0 → or_number d (or_number d x) ≡ or_number d x
unfolding or_number
or_number-twice (pos zero) x n = absurd (n refl)
or_number-twice (pos (suc d)) (pos zero) n = refl
or_number-twice (negsuc d) (pos zero) n = refl
or_number-twice (pos (suc d)) (pos (suc k)) n = refl
or_number-twice (negsuc d) (pos (suc k)) n = refl
or_number-twice (pos (suc d)) (negsuc k) n = refl
or_number-twice (negsuc d) (negsuc k) n = refl

pub or_text-twice : (d s : String) → or_text d (or_text d s) ≡ or_text d s
unfolding or_text
or_text-twice d s = ground arith

-- A number is positive after its positive default exactly if it was not negative.
pub or_number-positive :
    (d : ℕ) (x : ℤ) → 0 < d → leb_ℤ (or_number (pos d) x) (pos 0) ≡ ltb_ℤ x (pos 0)
unfolding or_number
or_number-positive zero x b = absurd (ground (arith, b))
or_number-positive (suc d) (pos zero) b = ground arith
or_number-positive (suc d) (pos (suc n)) b = ground arith
or_number-positive (suc d) (negsuc n) b = ground arith

pub or_text-keeps : (d s : String) → s ≢ "" → or_text d s ≡ s
unfolding or_text
or_text-keeps d s n = ground (arith, n)

pub or_text-other : (d other s : String) → d ≢ "" → or_text other (or_text d s) ≡ or_text d s
unfolding or_text
or_text-other d other s n = ground (arith, n)
