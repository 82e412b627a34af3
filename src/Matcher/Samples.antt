-- ===== src/Matcher/Samples.antt =====
-- Runs of internal/matcher/keymatcher.go on concrete names.
use text.Mathlib.TextEquality.{eq_iff}
use reactive_commons_go.Base.{
  String, ◌≡◌, refl, sym, subst, ◌≢◌, ◌↔◌, ◌⊎◌, inl, inr, true, false, List, [], ◌∷◌, arith,
  String_discrete,
}
use reactive_commons_go.Base.Int.{pos, negsuc, ltb_ℤ}
use reactive_commons_go.Matcher.{
  matches, has_wildcard, compare, compare_segments, match_segments, any_suffix,
}
use reactive_commons_go.Matcher.Split.{split}
use reactive_commons_go.Matcher.Key.{MatchesKey, matches_iff}
use reactive_commons_go.Matcher.Compare.{NoClash, Clash, compare-Clash}
use reactive_commons_go.Matcher.Resolution.{Dominates}

matches-star : matches "orders.created" "orders.*" ≡ true
unfolding matches has_wildcard match_segments any_suffix split String_discrete
matches-star = refl

matches-exact : matches "orders.created" "orders.created" ≡ false
unfolding matches has_wildcard match_segments any_suffix split String_discrete
matches-exact = refl

matches_iff_example :
    (matches "orders.created" "orders.*" ≡ true)
    ↔ ((has_wildcard "orders.*" ≡ true) × MatchesKey (split "orders.*") (split "orders.created"))
matches_iff_example = matches_iff "orders.created" "orders.*"

abbrev patterns : List String
patterns = "#" ∷ "orders.*" ∷ []

patterns-Dominates : Dominates "orders.*" patterns
unfolding compare compare_segments split String_discrete
patterns-Dominates k (inl e) =
    subst
      (λ x.
        (x ≡ "orders.*")
        ⊎ ((ltb_ℤ (compare "orders.*" x) (pos 0) ≡ true)
            × (ltb_ℤ (compare x "orders.*") (pos 0) ≡ false)))
      (sym e) (inr (refl, refl))
patterns-Dominates k (inr (inl e)) = inl e
patterns-Dominates k (inr (inr x)) = absurd x

b≢c : ◌≢◌ {A = String} "b" "c"
b≢c e = ground (arith, eq_iff "b" "c", e)

clash : Clash (split "#.b.c") (split "#.c")
unfolding split String_discrete
clash = inl (inl refl, inr (λ e. b≢c e, refl, refl))

compare-Clash_example : (compare "#.b.c" "#.c" ≡ negsuc 0) × (compare "#.c" "#.b.c" ≡ negsuc 0)
compare-Clash_example = compare-Clash "#.b.c" "#.c" clash

no_clash : NoClash (split "a.*") (split "a.#")
unfolding split String_discrete
no_clash = (λ _. (λ _. tt, λ _. inl refl), λ n. absurd (n refl))
