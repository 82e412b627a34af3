-- ===== src/Matcher/Compare.antt =====
-- The comparator `compare` of internal/matcher/keymatcher.go: where it is an order, and where not.
use text.Mathlib.TextEquality.{eq_iff}
use reactive_commons_go.Base.{
  ℕ, String, ◌≡◌, refl, ◌≢◌, ◌↔◌, ◌⊎◌, true, false, List, [], ◌∷◌, ◌++◌, arith, length,
}
use reactive_commons_go.Base.Int.{ℤ, pos, negsuc, sub_ℕ, pos_part, neg_part}
use reactive_commons_go.Matcher.{compare, compare_segments, is_wildcard}
use reactive_commons_go.Matcher.Split.{split, split_injective}

-- The scan of two lists of segments never meets two different literals. It goes on past equal
-- segments and past two wildcards, and stops at a literal beside a wildcard.
abbrev pub NoClash : List String → List String → Type 0
NoClash [] _ = Unit
NoClash (_ ∷ _) [] = Unit
NoClash (a ∷ first) (b ∷ second) =
    (a ≡ b ⊎ ((is_wildcard a ≡ true) × (is_wildcard b ≡ true)) → NoClash first second)
    × (a ≢ b → (is_wildcard a ≡ true) ⊎ (is_wildcard b ≡ true))

-- The scan meets two different literals.
abbrev pub Clash : List String → List String → Type 0
Clash [] _ = ⊥
Clash (_ ∷ _) [] = ⊥
Clash (a ∷ first) (b ∷ second) =
    ((a ≡ b ⊎ ((is_wildcard a ≡ true) × (is_wildcard b ≡ true))) × Clash first second)
    ⊎ (a ≢ b × (is_wildcard a ≡ false) × (is_wildcard b ≡ false))

abbrev pub negate : ℤ → ℤ
negate n = sub_ℕ (neg_part n) (pos_part n)

compare_segments-negate :
    (whole current : ℤ) (first second : List String)
    → NoClash first second
    → compare_segments (negate whole) (negate current) second first
      ≡ negate (compare_segments whole current first second)
unfolding compare_segments
compare_segments-negate whole current [] [] h = refl
compare_segments-negate whole current [] (b ∷ second) h = refl
compare_segments-negate whole current (a ∷ first) [] h = refl
compare_segments-negate whole current (a ∷ first) (b ∷ second) h = ground (
  arith,
  eq_iff "*" "#",
  compare_segments-negate whole current first second,
  compare_segments-negate whole (pos 1) first second,
  compare_segments-negate whole (negsuc 0) first second,
)

sub_ℕ-negate : (a b : ℕ) → sub_ℕ b a ≡ negate (sub_ℕ a b)
sub_ℕ-negate a b = ground arith

-- Turning the arguments of `compare` round turns the sign of its result round, for patterns whose
-- segments do not clash.
pub compare-negate :
    (a b : String) → NoClash (split a) (split b) → compare b a ≡ negate (compare a b)
unfolding compare
compare-negate a b h =
    rw (sub_ℕ-negate (length (split b)) (length (split a)))
      (compare_segments-negate _ _ (split a) (split b) h)

compare_segments-Clash :
    (whole current : ℤ) (first second : List String)
    → Clash first second
    → (compare_segments whole current first second ≡ negsuc 0)
      × (compare_segments whole current second first ≡ negsuc 0)
unfolding compare_segments
compare_segments-Clash whole current [] second h = absurd h
compare_segments-Clash whole current (a ∷ first) [] h = absurd h
compare_segments-Clash whole current (a ∷ first) (b ∷ second) h = ground (
  arith,
  eq_iff "*" "#",
  compare_segments-Clash whole current first second,
  compare_segments-Clash whole (pos 1) first second,
  compare_segments-Clash whole (negsuc 0) first second,
)

-- Each of two patterns that clash is more specific than the other.
pub compare-Clash :
    (a b : String) → Clash (split a) (split b) → (compare a b ≡ negsuc 0) × (compare b a ≡ negsuc 0)
unfolding compare
compare-Clash a b h = (
  (compare_segments-Clash _ _ (split a) (split b) h).0,
  (compare_segments-Clash _ _ (split a) (split b) h).1,
)

-- The last return of `compareSegments`, `len(second) - len(first)`, is never reached.
pub compare_segments-whole :
    (whole whole' current : ℤ) (first second : List String)
    → compare_segments whole current first second ≡ compare_segments whole' current first second
unfolding compare_segments
compare_segments-whole whole whole' current [] second = refl
compare_segments-whole whole whole' current (a ∷ first) [] = refl
compare_segments-whole whole whole' current (a ∷ first) (b ∷ second) = ground (
  arith,
  compare_segments-whole whole whole' current first second,
  compare_segments-whole whole whole' (pos 1) first second,
  compare_segments-whole whole whole' (negsuc 0) first second,
)

compare_segments-eq-zero :
    (whole current : ℤ) (first second : List String)
    → compare_segments whole current first second ≡ pos 0
    → (current ≡ pos 0) × (length first ≡ length second → first ≡ second)
unfolding compare_segments
compare_segments-eq-zero whole current [] [] h = (h, λ _. refl)
compare_segments-eq-zero whole current [] (b ∷ second) h = (h, λ e. absurd (omega arith))
compare_segments-eq-zero whole current (a ∷ first) [] h = (h, λ e. absurd (omega arith))
compare_segments-eq-zero whole current (a ∷ first) (b ∷ second) h = ground (
  arith,
  compare_segments-eq-zero whole current first second,
  compare_segments-eq-zero whole (pos 1) first second,
  compare_segments-eq-zero whole (negsuc 0) first second,
)

compare_segments_self :
    (whole current : ℤ) (segments : List String)
    → compare_segments whole current segments segments ≡ current
unfolding compare_segments
compare_segments_self whole current [] = refl
compare_segments_self whole current (a ∷ segments) =
    ground (arith, compare_segments_self whole current segments)

pub compare_self : (a : String) → compare a a ≡ pos 0
unfolding compare
compare_self a = ground (arith, compare_segments_self (pos 0) (pos 0) (split a))

sub_ℕ-eq-zero : (a b : ℕ) → sub_ℕ a b ≡ pos 0 → b ≡ a
sub_ℕ-eq-zero a b h = ground arith

compare-zero→eq : (a b : String) → compare a b ≡ pos 0 → a ≡ b
unfolding compare
compare-zero→eq a b h =
    let (initial, same) = compare_segments-eq-zero _ _ (split a) (split b) h in
    split_injective a b (same (sub_ℕ-eq-zero _ _ initial))

-- `compare` finds two patterns equally specific exactly when they are the same pattern.
pub compare-eq-zero_iff : (a b : String) → (compare a b ≡ pos 0) ↔ (a ≡ b)
compare-eq-zero_iff a b = (compare-zero→eq a b, λ e. rw e (compare_self b))

-- After the same segments a literal beside a wildcard decides, whatever follows: the pattern with
-- the literal is the more specific one, seen from either side.
pub compare_literal_first :
    (whole current : ℤ) (prefix : List String) (a b : String) (first second : List String)
    → is_wildcard a ≡ false
    → is_wildcard b ≡ true
    → (compare_segments whole current (prefix ++ a ∷ first) (prefix ++ b ∷ second) ≡ negsuc 0)
      × (compare_segments whole current (prefix ++ b ∷ second) (prefix ++ a ∷ first) ≡ pos 1)
unfolding compare_segments
compare_literal_first whole current [] a b first second literal wild = ground arith
compare_literal_first whole current (s ∷ prefix) a b first second literal wild =
    ground (arith, compare_literal_first whole current prefix a b first second literal wild)
