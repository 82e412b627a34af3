-- ===== src/Rabbit/Application/Lifecycle.antt =====
-- internal/rabbit/application.go: `Start` becomes ready only on a complete topology with every listener
-- started, and closes the connection whatever happens.
use reactive_commons_go.Base.{
  ◌≡◌, ◌↔◌, inl, inr, refl, String, Bool, true, List, [], ◌∷◌, ◌++◌, map, Option, none, some, arith,
  All, In,
}
use reactive_commons_go.Rabbit.Config.{Config}
use reactive_commons_go.Rabbit.Topology.{Declaration, declare}
use reactive_commons_go.Rabbit.Application.{
  App, topology, listeners, start_listeners, StartError, joined, bring_up_consumers, Act, dials,
  brings_up, becomes_ready, drains, marks_stopped, closes, start_app,
}

declare-none :
    (takes : Declaration → Bool) (ds : List Declaration)
    → ((declare takes ds).1 ≡ none) ↔ All (λ d. takes d ≡ true) ds
unfolding declare
declare-none takes [] = (λ _. tt, λ _. refl)
declare-none takes (d ∷ ds) =
    let ih = declare-none takes ds in
    (λ e. (ground (arith, e), ih.0 (ground (arith, e))), λ h. ground (arith, h.0, ih.1 h.1))

module _ (start : String → String → Option String) where
  abbrev Starts : String × String → Type 0
  Starts l = start l.0 l.1 ≡ none

  errors-none : (ls : List (String × String)) → ((start_listeners start ls).1 ≡ []) ↔ All Starts ls
  unfolding start_listeners
  errors-none [] = (λ _. tt, λ _. refl)
  errors-none ((k, q) ∷ ls) =
      let ih = errors-none ls in
      (λ e. (ground (arith, e), ih.0 (ground (arith, e))), λ h. ground (arith, h.0, ih.1 h.1))

  -- Every listener is started, in order, even if another one before it failed.
  pub started-all : (ls : List (String × String)) → (start_listeners start ls).0 ≡ map (λ l. l.0) ls
  unfolding start_listeners
  started-all [] = refl
  started-all ((k, q) ∷ ls) = ground (arith, started-all ls)

joined-none : (es : List (String × String)) → (joined es ≡ none) ↔ (es ≡ [])
joined-none [] = (λ _. refl, λ _. refl)
joined-none (e ∷ es) = (λ f. ground (arith, f), λ f. ground (arith, f))

ready_iff :
    (dial sender : Option String) (up : Option StartError) (close : Option String)
    → In becomes_ready (start_app dial sender up close).0
      ↔ ((dial ≡ none) × (sender ≡ none) × (up ≡ none))
unfolding start_app
ready_iff (some e) sender up close = (λ m. ground (arith, m), λ h. ground (arith, h.0))
ready_iff none (some e) up close = (λ m. ground (arith, m), λ h. ground (arith, h.1))
ready_iff none none (some e) close = (λ m. ground (arith, m), λ h. ground (arith, h.2))
ready_iff none none none close = (λ _. (refl, refl, refl), λ _. inr (inr (inl refl)))

closes_last :
    (dial sender : Option String) (up : Option StartError) (close : Option String)
    → dial ≡ none
    → (before : List Act) × ((start_app dial sender up close).0 ≡ before ++ (closes ∷ []))
unfolding start_app
closes_last (some e) sender up close h = absurd (ground (arith, h))
closes_last none (some e) up close h = (dials ∷ [], refl)
closes_last none none (some e) close h = (dials ∷ brings_up ∷ [], refl)
closes_last none none none close h =
    (dials ∷ brings_up ∷ becomes_ready ∷ drains ∷ marks_stopped ∷ [], refl)

no_error :
    (dial sender : Option String) (up : Option StartError) (close : Option String)
    → (dial ≡ none) × (sender ≡ none) × (up ≡ none)
    → close ≡ none
    → (start_app dial sender up close).1 ≡ none
unfolding start_app
no_error dial sender up close h e = ground (arith, h.0, h.1, h.2, e)

bring_up-none :
    (cfg : Config) (a : App) (channel : Option String) (takes : Declaration → Bool)
    (start : String → String → Option String)
    → (bring_up_consumers cfg a channel takes start ≡ none) ↔ (
        (channel ≡ none)
        × All (λ d. takes d ≡ true) (topology cfg a)
        × All (λ l. start l.0 l.1 ≡ none) (listeners cfg a))
unfolding bring_up_consumers
bring_up-none cfg a channel takes start =
    let d = declare-none takes (topology cfg a) in
    let s = errors-none start (listeners cfg a) in
    let j = joined-none (start_listeners start (listeners cfg a)).1 in
    (
      λ e. (ground (arith, e), d.0 (ground (arith, e)), s.0 (j.0 (ground (arith, e)))),
      λ h. ground (arith, h.0, d.1 h.1, j.1 (s.1 h.2)),
    )

-- `Start` becomes ready exactly when the dial, the sender, the whole topology and every listener have
-- succeeded, no declaration refused; every listener is started even if another one fails; and whenever
-- the dial has succeeded the last thing that `Start` does is to close the connection, an error of
-- which is the only one that a `Start` that became ready can return.
pub start_app-ready :
    (cfg : Config) (a : App) (dial sender channel close : Option String)
    (takes : Declaration → Bool) (start : String → String → Option String)
    → let run = start_app dial sender (bring_up_consumers cfg a channel takes start) close in
      (In becomes_ready run.0 ↔ (
        (dial ≡ none)
        × (sender ≡ none)
        × (channel ≡ none)
        × All (λ d. takes d ≡ true) (topology cfg a)
        × All (λ l. start l.0 l.1 ≡ none) (listeners cfg a)))
      × ((start_listeners start (listeners cfg a)).0 ≡ map (λ l. l.0) (listeners cfg a))
      × (dial ≡ none → (before : List Act) × (run.0 ≡ before ++ (closes ∷ [])))
      × (In becomes_ready run.0 → close ≡ none → run.1 ≡ none)
start_app-ready cfg a dial sender channel close takes start =
    let b = bring_up-none cfg a channel takes start in
    let r = ready_iff dial sender (bring_up_consumers cfg a channel takes start) close in
    (
      (
        λ m. let (d, s, u) = r.0 m in (d, s, (b.0 u).0, (b.0 u).1, (b.0 u).2),
        λ h. r.1 (h.0, h.1, b.1 (h.2, h.3, h.4)),
      ),
      started-all start (listeners cfg a),
      closes_last dial sender (bring_up_consumers cfg a channel takes start) close,
      λ m. no_error dial sender (bring_up_consumers cfg a channel takes start) close (r.0 m),
    )
