-- ===== src/Rabbit/Topology/Samples.antt =====
-- Runs of internal/rabbit/topology.go for one application.
use reactive_commons_go.Base.{◌≡◌, refl, [], ◌∷◌, some, String_discrete}
use reactive_commons_go.Rabbit.Config.Samples.{shop}
use reactive_commons_go.Rabbit.Topology.{text, merge, queue_args, arg_queue_type}
use reactive_commons_go.Rabbit.Topology.DeadLetters.{DeadLetters}

quorum_args : queue_args shop [] ≡ some ((arg_queue_type, text "quorum") ∷ [])
unfolding queue_args merge String_discrete
quorum_args = refl
