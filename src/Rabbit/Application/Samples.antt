-- ===== src/Rabbit/Application/Samples.antt =====
-- Runs of internal/rabbit/application.go: an application with one event handler and one query handler.
use reactive_commons_go.Base.{
  ◌≤◌, ◌≡◌, ◌≢◌, ◌↔◌, refl, String, true, false, List, [], ◌∷◌, ◌++◌, map, Option, none, some, All,
  In, is_empty,
}
use reactive_commons_go.Base.Dict.{Dict}
use reactive_commons_go.Rabbit.Config.Samples.{shop}
use reactive_commons_go.Rabbit.Topology.{binding, events_queue, queries_queue}
use reactive_commons_go.Rabbit.Consumer.{SupervisedConsumer, new_supervised_consumer}
use reactive_commons_go.Rabbit.Connection.{ConnectionHealth, connected}
use reactive_commons_go.Rabbit.Application.{
  App, StartError, is_none_left, topology, listeners, start_listeners, bring_up_consumers, Act,
  becomes_ready, closes, start_app, health, mark_consumers_stopped,
}
use reactive_commons_go.Rabbit.Application.Coverage.{IsDeclared, topology-Serves}
use reactive_commons_go.Rabbit.Application.Health.{Runs, Stands, healthy_iff}
use reactive_commons_go.Rabbit.Application.Lifecycle.{start_app-ready}
use reactive_commons_go.Rabbit.Application.Drain.{
  World, new_world, awaits_restores, awaits_supervisors, drained, starts_one, is_up, shuts_down,
  restores_awaited, supervisor_ends, Reachable, starts, and_then, no_add_after_wait,
}

abbrev app : App
app = record {
  event_names = "order.created" ∷ [];
  command_names = [];
  query_names = "stock" ∷ [];
  notification_names = [];
  reply_queue = "shop.replies.x";
  notification_queue = "";
}

topology-Serves_example :
    All (λ l. IsDeclared l.1 (topology shop app)) (listeners shop app)
    × ((n : String)
        → In n app.event_names
        → In (binding (events_queue shop) shop.domain_events_exchange n) (topology shop app))
    × ((n : String)
        → is_empty app.notification_queue ≡ false
        → In n app.notification_names
        → In (binding app.notification_queue shop.domain_events_exchange n) (topology shop app))
    × (is_none_left app.command_names ≡ false
        → In
            (binding shop.app_name shop.direct_messages_exchange shop.app_name)
            (topology shop app))
    × (is_none_left app.query_names ≡ false
        → In
            (binding (queries_queue shop) shop.direct_messages_exchange (queries_queue shop))
            (topology shop app))
    × In (binding app.reply_queue shop.global_reply_exchange app.reply_queue) (topology shop app)
topology-Serves_example = topology-Serves shop app

abbrev consumers : Dict SupervisedConsumer
consumers = ("event", new_supervised_consumer) ∷ ("reply", new_supervised_consumer) ∷ []

abbrev up : Option ConnectionHealth
up = some (record { state = connected; last_error = "" })

healthy_iff_example :
    (((health true up consumers).healthy ≡ true) ↔ (
      ◌≡◌ true true
      × ((health true up consumers).connection.state ≡ connected)
      × All Runs consumers))
    × All Stands (mark_consumers_stopped consumers)
    × (consumers ≢ [] → (health true up (mark_consumers_stopped consumers)).healthy ≡ false)
healthy_iff_example = healthy_iff true up consumers

abbrev run : List Act × Option StartError
run = start_app none none (bring_up_consumers shop app none (λ _. true) (λ kind _. some kind)) none

start_app-ready_example :
    (In becomes_ready run.0 ↔ (
      ◌≡◌ {A = Option String} none none
      × ◌≡◌ {A = Option String} none none
      × ◌≡◌ {A = Option String} none none
      × All (λ _. true ≡ true) (topology shop app)
      × All (λ l. ◌≡◌ {A = Option String} (some l.0) none) (listeners shop app)))
    × ((start_listeners (λ kind _. some kind) (listeners shop app)).0
        ≡ map (λ l. l.0) (listeners shop app))
    × (◌≡◌ {A = Option String} none none → (before : List Act) × (run.0 ≡ before ++ (closes ∷ [])))
    × (In becomes_ready run.0 → ◌≡◌ {A = Option String} none none → run.1 ≡ none)
start_app-ready_example =
    start_app-ready shop app none none none none (λ _. true) (λ kind _. some kind)

abbrev w1 : World
w1 = record new_world { supervisors = 1 }

abbrev w2 : World
w2 = record w1 { starting = false }

abbrev w3 : World
w3 = record w2 { shutting_down = true; waiter = awaits_restores }

abbrev w4 : World
w4 = record w3 { waiter = awaits_supervisors }

abbrev w5 : World
w5 = record w4 { supervisors = 0 }

reached4 : Reachable w4
reached4 =
    and_then w3 w4
      (and_then w2 w3
        (and_then w1 w2 (and_then new_world w1 starts (starts_one new_world refl)) (is_up w1 refl))
        (shuts_down w2 refl refl))
      (restores_awaited w3 refl refl)

no_add_after_wait_example :
    (w4.restores ≡ 0)
    × (w5.restores ≡ 0)
    × (w5.supervisors ≤ w4.supervisors)
    × (w5.waiter ≡ drained → w5.supervisors ≡ 0)
no_add_after_wait_example = no_add_after_wait w4 w5 reached4 refl (supervisor_ends w4 0 refl)
