-- ===== src/Matcher/Split.antt =====
-- `strings.Split(s, ".")`, the separator of internal/matcher/keymatcher.go, and its inverse.
use Prim.Native.Char.{Char, code}
use Prim.Native.String.{◌++◌ as append}
use text.Mathlib.TextEquality.{Char-path}
use text.Mathlib.TextLemmas.{nil-append, cons-append}
use reactive_commons_go.Base.{
  String, ◌≡◌, refl, ap, sym, ◌∙◌, ◌≢◌, inl, inr, Bool, true, List, [], ◌∷◌, arith, eqb,
  if◌then◌else◌, Bool-cases,
}

abbrev pub is_separator : Char → Bool
is_separator c = eqb (code c) b'.'

-- A character joins the first segment.
abbrev pub push : Char → List String → List String
push c [] = String.◌∷◌ c String.[] ∷ []
push c (s ∷ segments) = String.◌∷◌ c s ∷ segments

unfoldable pub split : String → List String
split String.[] = String.[] ∷ []
split (String.◌∷◌ c s) =
    let rest = split s in if is_separator c then String.[] ∷ rest else push c rest

abbrev separator : Char
separator = "."

-- The segments with a separator between each two.
pub join : List String → String
join [] = String.[]
join (s ∷ []) = s
join (s ∷ t ∷ segments) = append s (String.◌∷◌ separator (join (t ∷ segments)))

separator-path : (c : Char) → is_separator c ≡ true → separator ≡ c
separator-path c h = Char-path separator c (ground arith)

join-push :
    (c : Char) (segments : List String) → join (push c segments) ≡ String.◌∷◌ c (join segments)
unfolding join
join-push c [] = refl
join-push c (s ∷ []) = refl
join-push c (s ∷ t ∷ segments) = cons-append c s _

join-empty :
    (segments : List String)
    → segments ≢ []
    → join (String.[] ∷ segments) ≡ String.◌∷◌ separator (join segments)
unfolding join
join-empty [] h = absurd (h refl)
join-empty (t ∷ segments) h = nil-append _

split-ne-nil : (s : String) → split s ≢ []
unfolding split
split-ne-nil String.[] = λ e. cc
split-ne-nil (String.◌∷◌ c s) = λ e. elim (Bool-cases (is_separator c)) [
  | inl dot ↦ ground arith
  | inr other ↦ push-ne-nil c (split s) (rw other at e)
]
  where
    push-ne-nil : (c : Char) (l : List String) → push c l ≢ []
    push-ne-nil c [] = λ e. cc
    push-ne-nil c (t ∷ l) = λ e. cc

-- Joining the segments of a text gives the text back.
pub join-split : (s : String) → join (split s) ≡ s
unfolding split
join-split String.[] = unfold join in refl
join-split (String.◌∷◌ c s) = elim (Bool-cases (is_separator c)) [
  | inl dot ↦
      rw (dot, join-empty (split s) (split-ne-nil s), join-split s)
        (ap (λ d. String.◌∷◌ d s) (separator-path c dot))
  | inr other ↦ rw (other, join-push c (split s), join-split s)
]

-- Two texts with the same segments are the same text.
pub split_injective : (s t : String) → split s ≡ split t → s ≡ t
split_injective s t e = sym (join-split s) ∙ ap join e ∙ join-split t
