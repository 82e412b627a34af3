-- ===== src/Rabbit/Registry/Cache.antt =====
-- The resolution cache of internal/rabbit/registry.go: what its entries say, and that every
-- operation keeps it so.
use mathlib.Core.Path.{subst₂}
use mathlib.Core.Option.{some-injective}
use reactive_commons_go.Base.{
  subst, String, ◌≡◌, refl, sym, inl, inr, List, arith, Option, none, some, ◌==◌, if◌then◌else◌,
  Option-cases, Bool-cases, ==→≡,
}
use reactive_commons_go.Base.Dict.{Dict, lookup, insert, lookup-insert}
use reactive_commons_go.Matcher.{resolve}
use reactive_commons_go.Handlers.{Visits, IsChoice, handler_of, resolve-IsChoice}
use reactive_commons_go.Async.{ok}
use reactive_commons_go.Rabbit.Registry.{
  Table, cached, remember, resolve_pattern, listen, write_phase,
}

pub cached-remember :
    (name pat j : String) (cache : Option (Dict String))
    → cached j (remember name pat cache) ≡ (if name == j then some pat else cached j cache)
cached-remember name pat j none = unfold lookup insert in refl
cached-remember name pat j (some c) = lookup-insert name j pat c

module _ {H : Type 0} where
  abbrev pub CacheIsValid : Table H → Type 0
  CacheIsValid t =
      (name pat : String) → cached name t.cache ≡ some pat → IsChoice t.handlers name pat

  pub resolve_pattern-IsChoice :
      (handlers : Dict (Option H)) (visited : List String) (name : String)
      → Visits handlers visited
      → IsChoice handlers name (resolve_pattern name visited)
  unfolding resolve_pattern resolve
  resolve_pattern-IsChoice handlers visited name v = resolve-IsChoice handlers visited name v

  -- A registration drops the cache.
  pub listen-CacheIsValid :
      (name : String) (h : Option H) (t : Table H) {t' : Table H}
      → listen name h t ≡ ok t'
      → CacheIsValid t'
  unfolding listen
  listen-CacheIsValid name h t e j pat hit = ground arith

  remember-CacheIsValid :
      (t : Table H) (name pat : String)
      → IsChoice t.handlers name pat
      → CacheIsValid t
      → CacheIsValid (record t { cache = remember name pat t.cache })
  remember-CacheIsValid t name pat choice valid j q hit = elim (Bool-cases (name == j)) [
    | inl same ↦
        let chosen : some pat ≡ some q = ground (arith, cached-remember name pat j t.cache) in
        subst₂ (IsChoice t.handlers) (==→≡ name j same) (some-injective pat q chosen) choice
    | inr differ ↦ valid j q (ground (arith, cached-remember name pat j t.cache))
  ]

  -- The three ways through the part under the write lock.
  module _ (t : Table H) (visited : List String) (name : String) where
    pub write_phase-exact :
        {h : Option H} → lookup name t.handlers ≡ some h → write_phase t visited name ≡ (t, h)
    unfolding write_phase
    write_phase-exact e = ground arith

    pub write_phase-cached :
        {pat : String}
        → lookup name t.handlers ≡ none
        → cached name t.cache ≡ some pat
        → write_phase t visited name ≡ (t, handler_of t.handlers pat)
    unfolding write_phase
    write_phase-cached e hit = ground arith

    pub write_phase-miss :
        lookup name t.handlers ≡ none
        → cached name t.cache ≡ none
        → write_phase t visited name ≡ (
          record t { cache = remember name (resolve_pattern name visited) t.cache },
          handler_of t.handlers (resolve_pattern name visited),
        )
    unfolding write_phase
    write_phase-miss e miss = ground arith

  -- A lookup keeps the cache valid, in whatever order it visits the keys.
  pub write_phase-CacheIsValid :
      (t : Table H) (visited : List String) (name : String)
      → Visits t.handlers visited
      → CacheIsValid t
      → CacheIsValid (write_phase t visited name).0
  write_phase-CacheIsValid t visited name v valid = elim (Option-cases (lookup name t.handlers)) [
    | inr (h, e) ↦ subst (λ r. CacheIsValid r.0) (sym (write_phase-exact t visited name e)) valid
    | inl absent ↦ elim (Option-cases (cached name t.cache)) [
      | inr (pat, hit) ↦
          subst (λ r. CacheIsValid r.0) (sym (write_phase-cached t visited name absent hit)) valid
      | inl miss ↦
          subst (λ r. CacheIsValid r.0) (sym (write_phase-miss t visited name absent miss))
            (remember-CacheIsValid t name (resolve_pattern name visited)
              (resolve_pattern-IsChoice t.handlers visited name v) valid)
    ]
  ]
