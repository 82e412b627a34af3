-- ===== src/Rabbit/Registry/Lookup.antt =====
-- What the lookups of internal/rabbit/registry.go return.
use reactive_commons_go.Base.{
  String, ◌≡◌, sym, ◌⊎◌, inl, inr, List, arith, Option, none, some, Option-cases, subst, ==_refl,
}
use reactive_commons_go.Base.Dict.{lookup, lookup-insert}
use reactive_commons_go.Async.{ok}
use reactive_commons_go.Handlers.{Visits, Resolves, choice-Resolves}
use reactive_commons_go.Rabbit.Registry.{
  Table, cached, resolve_pattern, listen, write_phase, find_handler, read_phase,
}
use reactive_commons_go.Rabbit.Registry.Cache.{
  CacheIsValid, write_phase-exact, write_phase-cached, write_phase-miss, resolve_pattern-IsChoice,
  cached-remember,
}

module _ {H : Type 0} where
  write_phase-Resolves :
      (t : Table H) (visited : List String) (name : String)
      → Visits t.handlers visited
      → CacheIsValid t
      → Resolves t.handlers name (write_phase t visited name).1
  write_phase-Resolves t visited name v valid = elim (Option-cases (lookup name t.handlers)) [
    | inr (h, e) ↦
        subst (λ r. Resolves t.handlers name r.1) (sym (write_phase-exact t visited name e)) (inl e)
    | inl absent ↦ elim (Option-cases (cached name t.cache)) [
      | inr (pat, hit) ↦
          subst (λ r. Resolves t.handlers name r.1)
            (sym (write_phase-cached t visited name absent hit))
            (choice-Resolves t.handlers name pat absent (valid name pat hit))
      | inl miss ↦
          subst (λ r. Resolves t.handlers name r.1)
            (sym (write_phase-miss t visited name absent miss))
            (choice-Resolves t.handlers name (resolve_pattern name visited) absent
              (resolve_pattern-IsChoice t.handlers visited name v))
    ]
  ]

  read_phase-Resolves :
      (t : Table H) (name : String) (h : Option H)
      → CacheIsValid t
      → read_phase t name ≡ some h
      → Resolves t.handlers name h
  unfolding read_phase
  read_phase-Resolves t name h valid e = elim (Option-cases (lookup name t.handlers)) [
    | inr (g, found) ↦ inl (ground arith)
    | inl absent ↦ elim (Option-cases (cached name t.cache)) [
      | inr (pat, hit) ↦
          subst (Resolves t.handlers name) (ground arith)
            (choice-Resolves t.handlers name pat absent (valid name pat hit))
      | inl miss ↦ absurd (ground arith)
    ]
  ]

  module _ (t t' : Table H) (visited : List String) (name : String) where
    find_handler-read :
        {h : Option H} → read_phase t name ≡ some h → find_handler t t' visited name ≡ (t', h)
    unfolding find_handler
    find_handler-read e = rw (find_handler, e)

    find_handler-write :
        read_phase t name ≡ none → find_handler t t' visited name ≡ write_phase t' visited name
    unfolding find_handler
    find_handler-write e = rw (find_handler, e)

  -- A lookup answers as the handlers stood at its first or at its second lock, though another
  -- goroutine may register or look up in between.
  pub find_handler-Resolves :
      (t t' : Table H) (visited : List String) (name : String)
      → CacheIsValid t
      → CacheIsValid t'
      → Visits t'.handlers visited
      → Resolves t.handlers name (find_handler t t' visited name).1
        ⊎ Resolves t'.handlers name (find_handler t t' visited name).1
  find_handler-Resolves t t' visited name valid valid' v = elim (Option-cases (read_phase t name)) [
    | inr (h, e) ↦ inl (
        subst (λ r. Resolves t.handlers name r.1) (sym (find_handler-read t t' visited name e))
          (read_phase-Resolves t name h valid e))
    | inl e ↦ inr (
        subst (λ r. Resolves t'.handlers name r.1) (sym (find_handler-write t t' visited name e))
          (write_phase-Resolves t' visited name v valid'))
  ]

  -- Once a name has been looked up, a later lookup gives the same handler and changes nothing, in
  -- whatever orders the keys are visited.
  pub find_handler_stable :
      (t : Table H) (visited visited' : List String) (name : String)
      → let (t', h) = find_handler t t visited name in find_handler t' t' visited' name ≡ (t', h)
  unfolding find_handler read_phase write_phase
  find_handler_stable t visited visited' name =
      ground (arith, cached-remember name (resolve_pattern name visited) name t.cache, ==_refl name)

  -- A registered handler is found under its exact name, whatever patterns there are.
  pub find_handler-listen :
      (name : String) (h : Option H) (t t' t'' : Table H) (visited : List String)
      → listen name h t ≡ ok t'
      → (find_handler t' t'' visited name).1 ≡ h
  unfolding find_handler read_phase listen
  find_handler-listen name h t t' t'' visited e =
      ground (arith, lookup-insert name name h t.handlers, ==_refl name)
