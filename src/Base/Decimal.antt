-- ===== src/Base/Decimal.antt =====
-- strconv.FormatInt and strconv.ParseInt with base 10 and 64 bits.
use Prim.Native.Char.{Char, code}
use Prim.Native.Nat.{ℕ, zero, suc, ◌+◌, ◌-◌, ◌*◌, ◌/◌, ◌%◌, ◌^◌, ◌<◌}
use Prim.Native.String.{String}
use mathlib.Core.Logic.{inl, inr}
use mathlib.Core.Bool.{Bool, true, false, ◌&&◌}
use mathlib.Core.Option.{Option, none, some}
use mathlib.Core.Path.{◌≡◌, refl, ap, sym, ◌∙◌}
use native.Mathlib.Omega.{arith}
use reactive_commons_go.Base.Tests.{ltb, leb, eqb, if◌then◌else◌, Bool-cases}
use reactive_commons_go.Base.Int.{ℤ, pos, negsuc}

-- The digit of a number below 10.
unfoldable pub digit : ℕ → Char
digit zero = "0"
digit (suc zero) = "1"
digit (suc (suc zero)) = "2"
digit (suc (suc (suc zero))) = "3"
digit (suc (suc (suc (suc zero)))) = "4"
digit (suc (suc (suc (suc (suc zero))))) = "5"
digit (suc (suc (suc (suc (suc (suc zero)))))) = "6"
digit (suc (suc (suc (suc (suc (suc (suc zero))))))) = "7"
digit (suc (suc (suc (suc (suc (suc (suc (suc zero)))))))) = "8"
digit _ = "9"

code-digit : (d : ℕ) → d < 10 → code (digit d) ≡ 48 + d
unfolding digit
code-digit zero h = refl
code-digit (suc zero) h = refl
code-digit (suc (suc zero)) h = refl
code-digit (suc (suc (suc zero))) h = refl
code-digit (suc (suc (suc (suc zero)))) h = refl
code-digit (suc (suc (suc (suc (suc zero))))) h = refl
code-digit (suc (suc (suc (suc (suc (suc zero)))))) h = refl
code-digit (suc (suc (suc (suc (suc (suc (suc zero))))))) h = refl
code-digit (suc (suc (suc (suc (suc (suc (suc (suc zero)))))))) h = refl
code-digit (suc (suc (suc (suc (suc (suc (suc (suc (suc zero))))))))) h = refl
code-digit (suc (suc (suc (suc (suc (suc (suc (suc (suc (suc d)))))))))) h = absurd (omega arith)

-- The digits of `n` before `acc`, the last ones first.
unfoldable pub digits : ℕ → ℕ → String → String
unfolding digit
digits zero n acc = acc
digits (suc f) n acc =
    let rest = digits f (n / 10) (String.◌∷◌ (digit (n % 10)) acc) in
    if ltb n 10 then String.◌∷◌ (digit n) acc else rest

-- 20 digits are enough below 10^20, so for every int64.
unfoldable pub format_nat : ℕ → String
format_nat n = digits 20 n ""

pub format_nat-zero : format_nat 0 ≡ "0"
unfolding format_nat digits
format_nat-zero = refl

unfoldable pub parse_digits : String → ℕ → Option ℕ
parse_digits String.[] acc = some acc
parse_digits (String.◌∷◌ c s) acc =
    if leb 48 (code c) && leb (code c) 57 then parse_digits s (acc * 10 + (code c - 48)) else none

-- A magnitude in the range of an int64.
abbrev pub in_range : Bool → Option ℕ → Option ℤ
in_range negative none = none
in_range true (some zero) = some (pos zero)
in_range true (some (suc n)) = if ltb n (2 ^ 63) then some (negsuc n) else none
in_range false (some n) = if ltb n (2 ^ 63) then some (pos n) else none

-- At least one digit.
abbrev pub unsigned : Bool → String → Option ℤ
unsigned negative String.[] = none
unsigned negative (String.◌∷◌ c s) = in_range negative (parse_digits (String.◌∷◌ c s) 0)

-- `none` is an error.
unfoldable pub parse_int : String → Option ℤ
unfolding parse_digits
parse_int String.[] = none
parse_int (String.◌∷◌ c s) =
    if eqb (code c) 45
    then unsigned true s
    else if eqb (code c) 43
    then unsigned false s
    else unsigned false (String.◌∷◌ c s)

parse_digits-cons :
    (d a : ℕ) (s : String)
    → d < 10
    → parse_digits (String.◌∷◌ (digit d) s) a ≡ parse_digits s (a * 10 + d)
unfolding parse_digits
parse_digits-cons d a s h = rw (code-digit d h) (ground (arith, sum))
  where
    sum : a * 10 + (48 + d - 48) ≡ a * 10 + d
    sum = omega arith

parse_digits-digits :
    (f n : ℕ) (acc : String) → n < 10 ^ f → parse_digits (digits f n acc) 0 ≡ parse_digits acc n
unfolding digits
parse_digits-digits zero n acc h = let e : n ≡ 0 = omega arith in rw e
parse_digits-digits (suc f) n acc h = elim (Bool-cases (ltb n 10)) [
  | inl small ↦
      let whole : 0 * 10 + n ≡ n = omega arith in
      rw small (parse_digits-cons n 0 acc (ground arith) ∙ ap (parse_digits acc) whole)
  | inr big ↦
      let low : n % 10 < 10 = omega arith in
      let top : n / 10 < 10 ^ f = grind arith in
      let whole : n / 10 * 10 + n % 10 ≡ n = omega arith in
      rw big (
        parse_digits-digits f (n / 10) (String.◌∷◌ (digit (n % 10)) acc) top
        ∙ (parse_digits-cons (n % 10) (n / 10) acc low ∙ ap (parse_digits acc) whole))
]

-- A number that is formatted starts with a digit.
digits-digit :
    (f n : ℕ) (acc : String)
    → (d : ℕ) × (s : String) × (d < 10) × (digits (suc f) n acc ≡ String.◌∷◌ (digit d) s)
unfolding digits
digits-digit zero n acc = elim (Bool-cases (ltb n 10)) [
  | inl small ↦ (n, acc, ground arith, rw small)
  | inr big ↦ (n % 10, acc, omega arith, rw big)
]
digits-digit (suc f) n acc = elim (Bool-cases (ltb n 10)) [
  | inl small ↦ (n, acc, ground arith, rw small)
  | inr big ↦
      let (d, s, low, e) = digits-digit f (n / 10) (String.◌∷◌ (digit (n % 10)) acc) in
      (d, s, low, rw big e)
]

parse_int-digit :
    (d : ℕ) (s : String)
    → d < 10
    → parse_int (String.◌∷◌ (digit d) s) ≡ in_range false (parse_digits (String.◌∷◌ (digit d) s) 0)
unfolding parse_int
parse_int-digit d s h = let c = code-digit d h in ground (arith, c)

in_range_small : (n : ℕ) → n < 2 ^ 63 → in_range false (some n) ≡ some (pos n)
in_range_small n h = ground arith

parse_digits-nil : (n : ℕ) → parse_digits "" n ≡ some n
unfolding parse_digits
parse_digits-nil n = refl

pub parse_int-format_nat : (n : ℕ) → n < 2 ^ 63 → parse_int (format_nat n) ≡ some (pos n)
unfolding format_nat
parse_int-format_nat n h =
    let (d, s, low, e) = digits-digit 19 n "" in
    let read : parse_digits (digits 20 n "") 0 ≡ some n =
      parse_digits-digits 20 n "" (omega arith) ∙ parse_digits-nil n in
    ap parse_int e
    ∙ (parse_int-digit d s low
        ∙ (ap (λ t. in_range false (parse_digits t 0)) (sym e)
            ∙ (ap (in_range false) read ∙ in_range_small n h)))
