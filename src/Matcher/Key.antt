-- ===== src/Matcher/Key.antt =====
-- `matchSegments` decides a relation with no search order in it: RabbitMQ's topic rules.
use text.Mathlib.TextEquality.{eq_iff}
use reactive_commons_go.Base.{
  String, ◌≡◌, refl, sym, ◌∙◌, ◌≢◌, ◌↔◌, inl, inr, Bool, true, List, [], ◌∷◌, arith, if◌then◌else◌,
  Bool-cases, String_discrete,
}
use reactive_commons_go.Matcher.{
  is_nil, any_suffix, match_segments, match_word, matches, has_wildcard, single_word_wildcard,
  multiple_word_wildcard,
}
use reactive_commons_go.Matcher.Split.{split}

-- `*` stands for one segment, `#` for any number of them, any other segment for itself.
pub data MatchesKey : List String → List String → Type 0 where
  empty : MatchesKey [] []
  literal :
      {s k : String} {pattern key : List String}
      → s ≢ multiple_word_wildcard
      → s ≡ k
      → MatchesKey pattern key
      → MatchesKey (s ∷ pattern) (k ∷ key)
  one :
      {s k : String} {pattern key : List String}
      → s ≡ single_word_wildcard
      → MatchesKey pattern key
      → MatchesKey (s ∷ pattern) (k ∷ key)
  skip :
      {s : String} {pattern key : List String}
      → s ≡ multiple_word_wildcard
      → MatchesKey pattern key
      → MatchesKey (s ∷ pattern) key
  take :
      {s k : String} {pattern key : List String}
      → s ≡ multiple_word_wildcard
      → MatchesKey (s ∷ pattern) key
      → MatchesKey (s ∷ pattern) (k ∷ key)

-- A final `#` takes whatever is left.
take_all : {s : String} (key : List String) → s ≡ multiple_word_wildcard → MatchesKey (s ∷ []) key
take_all [] e = skip e empty
take_all (k ∷ key) e = take e (take_all key e)

any_suffix_sound :
    (s : String) (pattern key : List String) (next : List String → Bool)
    → s ≡ multiple_word_wildcard
    → ((key' : List String) → next key' ≡ true → MatchesKey pattern key')
    → any_suffix next key ≡ true
    → MatchesKey (s ∷ pattern) key
unfolding any_suffix
any_suffix_sound s pattern [] next e sound h = skip e (sound [] h)
any_suffix_sound s pattern (k ∷ key) next e sound h = elim (Bool-cases (next (k ∷ key))) [
  | inl now ↦ skip e (sound (k ∷ key) now)
  | inr later ↦ take e (any_suffix_sound s pattern key next e sound (ground arith))
]

module _ (s : String) (pattern key : List String) where
  match_segments-hash :
      s ≡ multiple_word_wildcard
      → match_segments (s ∷ pattern) key
        ≡ (if is_nil pattern then true else any_suffix (match_segments pattern) key)
  unfolding match_segments
  match_segments-hash hash = ground arith

  match_segments-word :
      s ≢ multiple_word_wildcard
      → match_segments (s ∷ pattern) key ≡ match_word s (match_segments pattern) key
  unfolding match_segments
  match_segments-word word = ground arith

hash_sound :
    (s : String) (pattern key : List String)
    → s ≡ multiple_word_wildcard
    → ((key' : List String) → match_segments pattern key' ≡ true → MatchesKey pattern key')
    → (if is_nil pattern then true else any_suffix (match_segments pattern) key) ≡ true
    → MatchesKey (s ∷ pattern) key
hash_sound s [] key hash sound h = take_all key hash
hash_sound s (p ∷ pattern) key hash sound h =
    any_suffix_sound s (p ∷ pattern) key (match_segments (p ∷ pattern)) hash sound h

word_sound :
    (s : String) (pattern key : List String)
    → s ≢ multiple_word_wildcard
    → ((key' : List String) → match_segments pattern key' ≡ true → MatchesKey pattern key')
    → match_word s (match_segments pattern) key ≡ true
    → MatchesKey (s ∷ pattern) key
word_sound s pattern [] word sound h = cc
word_sound s pattern (k ∷ key) word sound h = elim (String_discrete s k) [
  | yes same ↦ literal word same (sound key (ground arith))
  | no differ ↦ one (ground arith) (sound key (ground arith))
]

match_segments_sound :
    (pattern key : List String) → match_segments pattern key ≡ true → MatchesKey pattern key
match_segments_sound [] [] h = empty
match_segments_sound [] (k ∷ key) h = unfold match_segments in cc
match_segments_sound (s ∷ pattern) key h = elim (String_discrete s multiple_word_wildcard) [
  | yes hash ↦
      hash_sound s pattern key hash (match_segments_sound pattern)
        (rw (match_segments-hash s pattern key hash) at h)
  | no word ↦
      word_sound s pattern key word (match_segments_sound pattern)
        (rw (match_segments-word s pattern key word) at h)
]

star-ne-hash : single_word_wildcard ≢ multiple_word_wildcard
star-ne-hash = ground (arith, eq_iff "*" "#")

any_suffix_now :
    (next : List String → Bool) (key : List String) → next key ≡ true → any_suffix next key ≡ true
unfolding any_suffix
any_suffix_now next [] h = h
any_suffix_now next (k ∷ key) h = rw h

any_suffix_later :
    (next : List String → Bool) (k : String) (key : List String)
    → any_suffix next key ≡ true
    → any_suffix next (k ∷ key) ≡ true
unfolding any_suffix
any_suffix_later next k key h = ground arith

any_suffix_complete :
    (next : List String → Bool) {s : String} {pattern key : List String}
    → s ≡ multiple_word_wildcard
    → ((key' : List String) → MatchesKey pattern key' → next key' ≡ true)
    → MatchesKey (s ∷ pattern) key
    → any_suffix next key ≡ true
any_suffix_complete next hash complete (literal word _ d) = absurd (word hash)
any_suffix_complete next hash complete (one star d) = absurd (star-ne-hash (sym star ∙ hash))
any_suffix_complete next hash complete (skip _ d) = any_suffix_now next _ (complete _ d)
any_suffix_complete next hash complete (take _ d) =
    any_suffix_later next _ _ (any_suffix_complete next hash complete d)

hash_complete :
    (s : String) (pattern key : List String)
    → s ≡ multiple_word_wildcard
    → ((key' : List String) → MatchesKey pattern key' → match_segments pattern key' ≡ true)
    → MatchesKey (s ∷ pattern) key
    → (if is_nil pattern then true else any_suffix (match_segments pattern) key) ≡ true
hash_complete s [] key hash complete d = refl
hash_complete s (p ∷ pattern) key hash complete d =
    any_suffix_complete (match_segments (p ∷ pattern)) hash complete d

word_complete :
    (pattern : List String) {s : String} {key : List String}
    → s ≢ multiple_word_wildcard
    → ((key' : List String) → MatchesKey pattern key' → match_segments pattern key' ≡ true)
    → MatchesKey (s ∷ pattern) key
    → match_word s (match_segments pattern) key ≡ true
word_complete pattern word complete (literal {s} {k} {key} _ same d) =
    ground (arith, complete key d)
word_complete pattern word complete (one {s} {k} {key} star d) = ground (arith, complete key d)
word_complete pattern word complete (skip hash d) = absurd (word hash)
word_complete pattern word complete (take hash d) = absurd (word hash)

match_segments_complete :
    (pattern key : List String) → MatchesKey pattern key → match_segments pattern key ≡ true
match_segments_complete [] _ empty = unfold match_segments in refl
match_segments_complete (s ∷ pattern) key d = elim (String_discrete s multiple_word_wildcard) [
  | yes hash ↦
      rw (match_segments-hash s pattern key hash)
        (hash_complete s pattern key hash (match_segments_complete pattern) d)
  | no word ↦
      rw (match_segments-word s pattern key word)
        (word_complete pattern word (match_segments_complete pattern) d)
]

-- The search over segments answers true exactly on the keys that the topic rules admit.
pub match_segments_iff :
    (pattern key : List String) → (match_segments pattern key ≡ true) ↔ MatchesKey pattern key
match_segments_iff pattern key =
    (match_segments_sound pattern key, match_segments_complete pattern key)

-- `Matches` holds of a routing key and a pattern exactly when the pattern has a wildcard and its
-- segments admit those of the key under the topic rules.
pub matches_iff :
    (routing_key pattern : String)
    → (matches routing_key pattern ≡ true)
      ↔ ((has_wildcard pattern ≡ true) × MatchesKey (split pattern) (split routing_key))
unfolding matches
matches_iff routing_key pattern =
    ground (arith, match_segments_iff (split pattern) (split routing_key))
