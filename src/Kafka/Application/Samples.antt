-- ===== src/Kafka/Application/Samples.antt =====
-- Runs of `Start` of internal/kafka/application.go.
use reactive_commons_go.Base.{◌≡◌, ◌⊎◌, true, false, List, [], ◌∷◌, none, some}
use reactive_commons_go.Kafka.Config.Samples.{shop}
use reactive_commons_go.Kafka.Topology.{TopicConfig, TopicError, Broker, unreachable, answers}
use reactive_commons_go.Kafka.Application.{Handlers, creates_producer, closes_producer, start}
use reactive_commons_go.Distinct.{Distinct}
use reactive_commons_go.Kafka.Application.Listeners.{AreKeys}
use reactive_commons_go.Kafka.Application.Coverage.{Serves, start-Serves}

abbrev handlers : Handlers
handlers = record { events = "paid" ∷ []; notifications = []; commands = "pay" ∷ []; queries = [] }

-- The first broker is down, the second has two of the topics.
abbrev brokers : List Broker
brokers = unreachable ∷ answers ("shop.paid" ∷ "shop.commands" ∷ []) (λ _. true) ∷ []

keys : AreKeys shop handlers 3
unfolding AreKeys Distinct
keys = ((λ m. m, tt), tt)

start-Serves_example :
    ((e : TopicError) × ((start shop handlers 3 (false ∷ true ∷ []) brokers).1 ≡ some e)
      × (((start shop handlers 3 (false ∷ true ∷ []) brokers).0 ≡ [])
          ⊎ ((start shop handlers 3 (false ∷ true ∷ []) brokers).0
              ≡ creates_producer ∷ closes_producer ∷ [])))
    ⊎ (((start shop handlers 3 (false ∷ true ∷ []) brokers).1 ≡ none)
        × (cs : List TopicConfig) × Serves shop handlers 3 brokers cs
            (start shop handlers 3 (false ∷ true ∷ []) brokers).0)
start-Serves_example = start-Serves shop handlers 3 (false ∷ true ∷ []) brokers keys
