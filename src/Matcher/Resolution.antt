-- ===== src/Matcher/Resolution.antt =====
-- `Resolve` and `MostSpecific`: what they choose from, and when the choice does not depend on the
-- order in which a map hands out its keys.
use text.Mathlib.TextLemmas.{cons≢nil}
use reactive_commons_go.Base.{
  String, ◌≡◌, refl, ◌≢◌, ◌⊎◌, inl, inr, Bool, true, false, List, [], ◌∷◌, arith, Bool-cases,
  if◌then◌else◌, In, subst,
}
use reactive_commons_go.Base.Int.{pos, ltb_ℤ}
use reactive_commons_go.Matcher.{matches, compare, best_of, most_specific, candidates, resolve}
use reactive_commons_go.Matcher.Split.{split}
use reactive_commons_go.Matcher.Compare.{Clash, compare-Clash, compare_self}

module _ (name : String) where
  In-candidates :
      (keys : List String) (k : String)
      → In k (candidates name keys)
      → In k keys × (matches name k ≡ true)
  unfolding candidates
  In-candidates [] k m = absurd m
  In-candidates (j ∷ keys) k m = ground (arith, In-candidates keys k)

  candidates-In :
      (keys : List String) (k : String)
      → In k keys
      → matches name k ≡ true
      → In k (candidates name keys)
  unfolding candidates
  candidates-In [] k m h = m
  candidates-In (j ∷ keys) k m h = ground (arith, candidates-In keys k)

best_of-In : (best : String) (cs : List String) → In (best_of best cs) (best ∷ cs)
unfolding best_of compare
best_of-In best [] = inl refl
best_of-In best (c ∷ cs) = ground (arith, best_of-In c cs, best_of-In best cs)

-- `MostSpecific` returns one of its candidates.
pub most_specific-In : (c : String) (cs : List String) → In (most_specific (c ∷ cs)) (c ∷ cs)
unfolding most_specific
most_specific-In c cs = best_of-In c cs

-- The empty text has no wildcard, so it stands for "no pattern" and for nothing else.
not-matches-empty : (name k : String) → matches name k ≡ true → k ≢ ""
unfolding matches
not-matches-empty name String.[] h = λ e. cc
not-matches-empty name (String.◌∷◌ c k) h = λ e. cons≢nil e

abbrev Outcome : String → List String → String → Type 0
Outcome name keys result =
    ((result ≡ "") × ((k : String) → In k keys → matches name k ≡ false))
    ⊎ (In result keys × (matches name result ≡ true) × (result ≢ ""))

most_specific-Outcome :
    (name : String) (keys cs : List String)
    → ((k : String) → In k cs → In k keys × (matches name k ≡ true))
    → ((k : String) → In k keys → matches name k ≡ true → In k cs)
    → Outcome name keys (most_specific cs)
most_specific-Outcome name keys [] sound complete = inl (
  unfold most_specific in refl,
  λ k m. elim (Bool-cases (matches name k)) [
    | inl hit ↦ absurd (complete k m hit)
    | inr miss ↦ miss
  ],
)
most_specific-Outcome name keys (c ∷ cs) sound complete =
    let (m, hit) = sound (most_specific (c ∷ cs)) (most_specific-In c cs) in
    inr (m, hit, not-matches-empty name _ hit)

-- `Resolve` returns "" exactly when no key matches the name, and otherwise a key that does.
pub resolve_lem :
    (name : String) (keys : List String)
    → ((resolve name keys ≡ "") × ((k : String) → In k keys → matches name k ≡ false))
      ⊎ (In (resolve name keys) keys
          × (matches name (resolve name keys) ≡ true)
          × (resolve name keys ≢ ""))
unfolding resolve
resolve_lem name keys =
    most_specific-Outcome name keys (candidates name keys) (In-candidates name keys)
      (candidates-In name keys)

-- A pattern beats every other candidate, and none of them beats it.
abbrev pub Dominates : String → List String → Type 0
Dominates best cs =
    (k : String)
    → In k cs
    → (k ≡ best)
      ⊎ ((ltb_ℤ (compare best k) (pos 0) ≡ true) × (ltb_ℤ (compare k best) (pos 0) ≡ false))

best_of_keeps : (best : String) (cs : List String) → Dominates best cs → best_of best cs ≡ best
unfolding best_of
best_of_keeps best [] h = refl
best_of_keeps best (c ∷ cs) h =
    ground (arith, compare_self best, h c (inl refl), best_of_keeps best cs (λ k m. h k (inr m)))

abbrev wins : String → String → Bool
wins c best = ltb_ℤ (compare c best) (pos 0)

winner :
    (best current c : String)
    → best ≡ c
    → (current ≡ best) ⊎ ((wins best current ≡ true) × (wins current best ≡ false))
    → best ≡ (if wins c current then c else current)
winner best current c e h = ground arith

without :
    {k current : String} (c : String) (cs : List String)
    → In k (current ∷ cs)
    → In k (current ∷ c ∷ cs)
without c cs (inl e) = inl e
without c cs (inr m) = inr (inr m)

best_of_finds :
    (best current : String) (cs : List String)
    → Dominates best (current ∷ cs)
    → In best cs
    → best_of current cs ≡ best
unfolding best_of
best_of_finds best current [] h m = absurd m
best_of_finds best current (c ∷ cs) h (inl e) =
    subst (λ d. best_of d cs ≡ best) (winner best current c e (h current (inl refl)))
      (best_of_keeps best cs (λ k m. h k (inr (inr m))))
best_of_finds best current (c ∷ cs) h (inr m) = elim (Bool-cases (wins c current)) [
  | inl taken ↦ rw taken (best_of_finds best c cs (λ k n. h k (inr n)) m)
  | inr left ↦ rw left (best_of_finds best current cs (λ k n. h k (without c cs n)) m)
]

-- A candidate that dominates is chosen, in whatever order the candidates come.
pub most_specific-Dominates :
    (best : String) (cs : List String) → In best cs → Dominates best cs → most_specific cs ≡ best
unfolding most_specific
most_specific-Dominates best [] m h = absurd m
most_specific-Dominates best (c ∷ cs) (inl e) h =
    subst (λ d. best_of d cs ≡ best) e (best_of_keeps best cs (λ k m. h k (inr m)))
most_specific-Dominates best (c ∷ cs) (inr m) h = best_of_finds best c cs h m

-- Of two patterns that clash the one that comes last is chosen, in either order.
pub most_specific-Clash :
    (a b : String)
    → Clash (split a) (split b)
    → (most_specific (a ∷ b ∷ []) ≡ b) × (most_specific (b ∷ a ∷ []) ≡ a)
unfolding most_specific
most_specific-Clash a b h = ground (arith, compare-Clash a b h)
