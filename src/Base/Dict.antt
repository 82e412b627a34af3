-- ===== src/Base/Dict.antt =====
-- Go's `map[string]V` as an association list. The order of the entries stands for the order in
-- which `range` happens to visit them.
use Prim.Native.String.{String}
use mathlib.Core.Path.{◌≡◌, refl}
use mathlib.Core.Option.{Option, none, some}
use mathlib.Core.List.{List, [], ◌∷◌}
use native.Mathlib.Omega.{arith}
use mathlib.Core.Logic.{◌↔◌, ◌⊎◌}
use reactive_commons_go.Base.Tests.{◌==◌, if◌then◌else◌, String_discrete}
use reactive_commons_go.Base.Lists.{In}

abbrev pub Dict {ℓ} : Type ℓ → Type ℓ
Dict V = List (String × V)

module _ {ℓ} {V : Type ℓ} where
  -- `v, ok := m[k]`
  unfoldable pub lookup : String → Dict V → Option V
  lookup k [] = none
  lookup k ((j, v) ∷ m) = if j == k then some v else lookup k m

  -- `m[k] = v`
  unfoldable pub insert : String → V → Dict V → Dict V
  insert k v [] = (k, v) ∷ []
  insert k v ((j, w) ∷ m) = if j == k then (j, v) ∷ m else (j, w) ∷ insert k v m

  -- `delete(m, k)`
  unfoldable pub erase : String → Dict V → Dict V
  erase k [] = []
  erase k ((j, w) ∷ m) = let rest = erase k m in if j == k then rest else (j, w) ∷ rest

  unfoldable pub keys : Dict V → List String
  keys [] = []
  keys ((k, v) ∷ m) = k ∷ keys m

  -- A loop that writes each entry of a map into a new one, from the last entry visited to the first.
  unfoldable pub copy : Dict V → Dict V
  unfolding insert
  copy [] = []
  copy ((k, v) ∷ m) = insert k v (copy m)

  pub lookup-insert :
      (key asked : String) (value : V) (entries : Dict V)
      → lookup asked (insert key value entries)
        ≡ (if key == asked then some value else lookup asked entries)
  unfolding insert lookup
  lookup-insert key asked value [] = refl
  lookup-insert key asked value ((_, _) ∷ entries) =
      ground (arith, lookup-insert key asked value entries)

  pub lookup-erase :
      (k j : String) (m : Dict V) → lookup j (erase k m) ≡ (if k == j then none else lookup j m)
  unfolding lookup erase
  lookup-erase k j [] = ground arith
  lookup-erase k j ((i, w) ∷ m) = ground (arith, lookup-erase k j m)

  pub lookup-copy : (k : String) (m : Dict V) → lookup k (copy m) ≡ lookup k m
  unfolding lookup copy
  lookup-copy k [] = refl
  lookup-copy k ((j, w) ∷ m) = ground (arith, lookup-insert j k w (copy m), lookup-copy k m)

  pub keys-insert :
      (k j : String) (v : V) (m : Dict V) → In j (keys (insert k v m)) ↔ ((j ≡ k) ⊎ In j (keys m))
  unfolding keys insert
  keys-insert k j v [] = (λ h. h, λ h. h)
  keys-insert k j v ((i, w) ∷ m) = ground (arith, keys-insert k j v m)

  -- A key has an entry.
  pub lookup-In : (k : String) (m : Dict V) → In k (keys m) → (v : V) × (lookup k m ≡ some v)
  unfolding keys lookup
  lookup-In k [] h = absurd h
  lookup-In k ((j, w) ∷ m) h = elim (String_discrete j k) [
    | yes same ↦ (w, ground arith)
    | no differ ↦ let (v, e) = lookup-In k m (ground arith) in (v, ground arith)
  ]

  pub In-lookup : (k : String) (v : V) (m : Dict V) → lookup k m ≡ some v → In k (keys m)
  unfolding keys lookup
  In-lookup k v [] h = cc
  In-lookup k v ((j, w) ∷ m) h = ground (arith, In-lookup k v m)

  pub lookup-not_In : (k : String) (m : Dict V) → ¬ In k (keys m) → lookup k m ≡ none
  unfolding keys lookup
  lookup-not_In k [] h = refl
  lookup-not_In k ((j, w) ∷ m) h = ground (arith, lookup-not_In k m)

-- `m[k]` of a map of functions: nil, which is `none`, where the key is missing.
abbrev pub index {ℓ} : {H : Type ℓ} → String → Dict (Option H) → Option H
index k m = elim (lookup k m) [ none ↦ none | some h ↦ h ]
