-- ===== src/Handlers.antt =====
-- What it means that a name resolves to a handler among those that are registered: the
-- specification that both registries (internal/rabbit/registry.go, internal/kafka/registry.go) meet.
use reactive_commons_go.Base.{
  String, ◌≡◌, ◌≢◌, ◌↔◌, ◌⊎◌, inl, inr, true, false, List, arith, In, Option, none, some, is_empty,
  if◌then◌else◌,
}
use reactive_commons_go.Base.Dict.{Dict, lookup, keys, lookup-In, index}
use reactive_commons_go.Matcher.{matches, resolve}
use reactive_commons_go.Matcher.Resolution.{resolve_lem}

module _ {H : Type 0} where
  -- The handler that a pattern stands for; "" stands for no pattern.
  abbrev pub handler_of : Dict (Option H) → String → Option H
  handler_of handlers pat = if is_empty pat then none else index pat handlers

  -- The list that `keysOf` returned holds the keys of the map, in some order.
  abbrev pub Visits : Dict (Option H) → List String → Type 0
  Visits handlers visited = (k : String) → In k visited ↔ In k (keys handlers)

  -- "" for a name that no key matches, else a key that matches it.
  abbrev pub IsChoice : Dict (Option H) → String → String → Type 0
  IsChoice handlers name pat =
      ((pat ≡ "") × ((k : String) → In k (keys handlers) → matches name k ≡ false))
      ⊎ (In pat (keys handlers) × (matches name pat ≡ true) × (pat ≢ ""))

  -- The handler of the exact name, or nil where no pattern matches, or that of a matching pattern.
  abbrev pub Resolves : Dict (Option H) → String → Option H → Type 0
  Resolves handlers name h =
      (lookup name handlers ≡ some h)
      ⊎ ((lookup name handlers ≡ none)
          × (h ≡ none)
          × ((k : String) → In k (keys handlers) → matches name k ≡ false))
      ⊎ ((lookup name handlers ≡ none)
          × ((pat : String) × (matches name pat ≡ true) × (lookup pat handlers ≡ some h)))

  pub resolve-IsChoice :
      (handlers : Dict (Option H)) (visited : List String) (name : String)
      → Visits handlers visited
      → IsChoice handlers name (resolve name visited)
  resolve-IsChoice handlers visited name v = elim (resolve_lem name visited) [
    | inl (e, none_match) ↦ inl (e, λ k m. none_match k ((v k).1 m))
    | inr (m, hit, e) ↦ inr ((v _).0 m, hit, e)
  ]

  pub choice-Resolves :
      (handlers : Dict (Option H)) (name pat : String)
      → lookup name handlers ≡ none
      → IsChoice handlers name pat
      → Resolves handlers name (handler_of handlers pat)
  choice-Resolves handlers name pat absent (inl (e, none_match)) =
      inr (inl (absent, ground arith, none_match))
  choice-Resolves handlers name pat absent (inr (m, hit, e)) =
      let (h, found) = lookup-In pat handlers m in inr (inr (absent, (pat, hit, ground arith)))
