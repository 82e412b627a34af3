-- ===== src/Matcher.antt =====
-- internal/matcher/keymatcher.go: dotted names, patterns over them, and the choice of a pattern.
-- A Go string is a native text. `[]string` indices are walked as suffixes of the list.
pub mod Split
pub mod Key
pub mod Compare
pub mod Resolution
mod Samples
use Prim.Native.Char.{Char, code}
use reactive_commons_go.Base.{
  String, Bool, true, false, ◌&&◌, ◌||◌, not, List, [], ◌∷◌, eqb, ltb, ◌==◌, if◌then◌else◌,
}
use reactive_commons_go.Base.Int.{ℤ, pos, negsuc, sub_ℕ, ltb_ℤ}
use reactive_commons_go.Base.{length}
use Split.{split}

abbrev pub single_word_wildcard : String
single_word_wildcard = "*"

abbrev pub multiple_word_wildcard : String
multiple_word_wildcard = "#"

abbrev pub is_wildcard_char : Char → Bool
is_wildcard_char c = eqb (code c) b'*' || eqb (code c) b'#'

-- `strings.ContainsAny(s, "*#")`
unfoldable pub has_wildcard : String → Bool
has_wildcard String.[] = false
has_wildcard (String.◌∷◌ c s) = is_wildcard_char c || has_wildcard s

abbrev pub is_nil : List String → Bool
is_nil [] = true
is_nil (_ ∷ _) = false

-- The loop over `key[i:]` for i from 0 to len(key), both included.
unfoldable pub any_suffix : (List String → Bool) → List String → Bool
any_suffix next [] = next []
any_suffix next (k ∷ ks) = next (k ∷ ks) || any_suffix next ks

-- The branch of a literal or `*` segment; `next` is the call on the segments that follow.
abbrev match_word : String → (List String → Bool) → List String → Bool
match_word head next [] = false
match_word head next (k ∷ ks) = if head == single_word_wildcard || head == k then next ks else false

unfoldable pub match_segments : List String → List String → Bool
unfolding any_suffix
match_segments [] key = is_nil key
match_segments (head ∷ rest) key =
    let next = match_segments rest in
    if head == multiple_word_wildcard
    then (if is_nil rest then true else any_suffix next key)
    else match_word head next key

unfoldable pub matches : String → String → Bool
unfolding has_wildcard match_segments split
matches routing_key pattern =
    if not (has_wildcard pattern) then false else match_segments (split pattern) (split routing_key)

abbrev pub is_wildcard : String → Bool
is_wildcard s = s == single_word_wildcard || s == multiple_word_wildcard

-- `idx` moves along both lists; `whole` is `len(second) - len(first)` for the last return.
unfoldable pub compare_segments : ℤ → ℤ → List String → List String → ℤ
compare_segments whole current [] second = current
compare_segments whole current (a ∷ first) [] = current
compare_segments whole current (a ∷ first) (b ∷ second) =
    let same = compare_segments whole current first second in
    let worse = compare_segments whole (pos 1) first second in
    let better = compare_segments whole (negsuc 0) first second in
    if a == b
    then same
    else if not (a == single_word_wildcard) && not (a == multiple_word_wildcard)
    then negsuc 0
    else if not (b == single_word_wildcard) && not (b == multiple_word_wildcard)
    then pos 1
    else if a == multiple_word_wildcard && b == single_word_wildcard
    then worse
    else if a == single_word_wildcard && b == multiple_word_wildcard
    then better
    else whole

unfoldable pub compare : String → String → ℤ
unfolding compare_segments split
compare a b =
    let initial = sub_ℕ (length (split b)) (length (split a)) in
    compare_segments initial initial (split a) (split b)

-- The loop of `MostSpecific` from its first candidate on.
unfoldable pub best_of : String → List String → String
unfolding compare
best_of best [] = best
best_of best (c ∷ cs) = best_of (if ltb_ℤ (compare c best) (pos 0) then c else best) cs

unfoldable pub most_specific : List String → String
unfolding best_of
most_specific [] = ""
most_specific (c ∷ cs) = best_of c cs

-- The loop of `Resolve` that collects the candidates.
unfoldable pub candidates : String → List String → List String
unfolding matches
candidates name [] = []
candidates name (k ∷ keys) =
    let rest = candidates name keys in if matches name k then k ∷ rest else rest

unfoldable pub resolve : String → List String → String
unfolding candidates most_specific
resolve name keys = most_specific (candidates name keys)
