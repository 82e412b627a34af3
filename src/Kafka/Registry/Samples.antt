-- ===== src/Kafka/Registry/Samples.antt =====
-- Runs of internal/kafka/registry.go on a concrete registry; a handler is a number.
use reactive_commons_go.Base.{ℕ, ◌≡◌, refl, false, [], ◌∷◌, some}
use reactive_commons_go.Base.Dict.{lookup, insert, keys}
use reactive_commons_go.Async.{ok}
use reactive_commons_go.Handlers.{Visits, Resolves}
use reactive_commons_go.Matcher.{has_wildcard}
use reactive_commons_go.Kafka.Registry.{HandlerRegistry, serve_query, command_handler}
use reactive_commons_go.Kafka.Registry.Lifecycle.{command_handler-Resolves}

abbrev registry : HandlerRegistry ℕ ℕ ℕ ℕ
registry = record {
  started = false;
  event_handlers = [];
  notification_handlers = [];
  command_handlers = ("pay.*", some 3) ∷ [];
  query_handlers = [];
}

registry-Visits : Visits registry.command_handlers ("pay.*" ∷ [])
unfolding keys
registry-Visits k = (λ x. x, λ x. x)

command_handler-Resolves_example :
    Resolves registry.command_handlers "pay.card"
      (command_handler registry ("pay.*" ∷ []) "pay.card")
command_handler-Resolves_example =
    command_handler-Resolves registry ("pay.*" ∷ []) "pay.card" registry-Visits

abbrev serving : HandlerRegistry ℕ ℕ ℕ ℕ
serving = record registry { query_handlers = ("total", some 5) ∷ [] }

serves : serve_query "total" (some 5) registry ≡ ok serving
unfolding serve_query has_wildcard lookup insert
serves = refl
