-- ===== src/Rabbit/Application/Health.antt =====
-- internal/rabbit/application.go: when the application is healthy.
use reactive_commons_go.Base.{
  ◌≡◌, ◌≢◌, ◌↔◌, refl, String, Bool, true, false, ◌&&◌, [], ◌∷◌, map, Option, arith, All,
  if◌then◌else◌, Bool-cases, inl, inr,
}
use reactive_commons_go.Base.Dict.{Dict}
use reactive_commons_go.Rabbit.Config.{Config}
use reactive_commons_go.Rabbit.Consumer.{
  ConsumerState, running, rebuilding, stopped, SupervisedConsumer,
}
use reactive_commons_go.Rabbit.Connection.{
  ConnectionState, ConnectionHealth, connected, idle, reconnecting, stopped as conn_stopped,
}
use reactive_commons_go.Rabbit.Application.{
  App, is_running, is_connected, all_running, connection_health, health, mark_consumers_stopped,
  named_consumers, listeners,
}

abbrev pub Runs : String × SupervisedConsumer → Type 0
Runs r = r.1.health.state ≡ running

abbrev pub Stands : String × SupervisedConsumer → Type 0
Stands r = r.1.health.state ≡ stopped

is_running_iff : (s : ConsumerState) → (is_running s ≡ true) ↔ (s ≡ running)
is_running_iff running = (λ _. refl, λ _. refl)
is_running_iff rebuilding = (λ e. ground (arith, e), λ e. ground (arith, e))
is_running_iff stopped = (λ e. ground (arith, e), λ e. ground (arith, e))

is_connected_iff : (s : ConnectionState) → (is_connected s ≡ true) ↔ (s ≡ connected)
is_connected_iff connected = (λ _. refl, λ _. refl)
is_connected_iff idle = (λ e. ground (arith, e), λ e. ground (arith, e))
is_connected_iff reconnecting = (λ e. ground (arith, e), λ e. ground (arith, e))
is_connected_iff conn_stopped = (λ e. ground (arith, e), λ e. ground (arith, e))

all_running_iff :
    (b : Bool) (refs : Dict SupervisedConsumer)
    → (all_running b refs ≡ true) ↔ ((b ≡ true) × All Runs refs)
unfolding all_running
all_running_iff b [] = (λ e. (e, tt), λ h. h.0)
all_running_iff b ((name, sup) ∷ refs) =
    let ih = all_running_iff (if is_running sup.health.state then b else false) refs in
    let r = is_running_iff sup.health.state in
    (
      λ e. (ground (arith, ih.0 e), (ground (arith, ih.0 e, r), (ih.0 e).1)),
      λ h. ih.1 (ground (arith, h.0, h.1.0, r), h.1.1),
    )

each-Stands : (refs : Dict SupervisedConsumer) → All Stands (mark_consumers_stopped refs)
unfolding mark_consumers_stopped
each-Stands [] = tt
each-Stands ((name, sup) ∷ refs) = (refl, each-Stands refs)

all_running-false : (refs : Dict SupervisedConsumer) → all_running false refs ≡ false
unfolding all_running
all_running-false [] = refl
all_running-false ((name, sup) ∷ refs) = elim (Bool-cases (is_running sup.health.state)) [
  | inl e ↦ rw e (all_running-false refs)
  | inr e ↦ rw e (all_running-false refs)
]

none_running :
    (b : Bool) (refs : Dict SupervisedConsumer)
    → refs ≢ []
    → all_running b (mark_consumers_stopped refs) ≡ false
unfolding all_running mark_consumers_stopped
none_running b [] n = absurd (n refl)
none_running b ((name, sup) ∷ refs) n = all_running-false (mark_consumers_stopped refs)

-- The application is healthy exactly when it is ready, its connection is connected, and every consumer
-- that it has started runs; once the consumers have been marked as stopped at shutdown each of them
-- says stopped, and with at least one of them (the reply listener is always there) nothing makes the
-- application healthy.
pub healthy_iff :
    (ready : Bool) (conn : Option ConnectionHealth) (refs : Dict SupervisedConsumer)
    → (((health ready conn refs).healthy ≡ true) ↔ (
        (ready ≡ true) × ((health ready conn refs).connection.state ≡ connected) × All Runs refs))
      × All Stands (mark_consumers_stopped refs)
      × (refs ≢ [] → (health ready conn (mark_consumers_stopped refs)).healthy ≡ false)
unfolding health
healthy_iff ready conn refs =
    let c = is_connected_iff (connection_health conn).state in
    let a = all_running_iff (ready && is_connected (connection_health conn).state) refs in
    (
      (
        λ e. (ground (arith, a.0 e), ground (arith, a.0 e, c), (a.0 e).1),
        λ h. a.1 (ground (arith, h.0, h.1, c), h.2),
      ),
      each-Stands refs,
      none_running (ready && is_connected (connection_health conn).state) refs,
    )

-- Every consumer that is started is one that the health reports, under its kind.
pub named_consumers-listeners :
    (cfg : Config) (a : App) → named_consumers a ≡ map (λ l. l.0) (listeners cfg a)
unfolding named_consumers listeners
named_consumers-listeners cfg a = ground arith
