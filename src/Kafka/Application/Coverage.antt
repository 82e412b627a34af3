-- ===== src/Kafka/Application/Coverage.antt =====
-- internal/kafka/application.go: what `Start` runs, and which topics it has then made sure of.
use Prim.Native.String.{◌++◌ as append}
use reactive_commons_go.Base.{
  ℕ, ◌≡◌, ◌⊎◌, ◌↔◌, inl, inr, String, Bool, not, List, [], ◌∷◌, ◌++◌, map, none, some, All, In,
  arith, Bool-cases,
}
use reactive_commons_go.Kafka.Config.{Config}
use reactive_commons_go.Kafka.Topology.{
  broker_unreachable, TopicConfig, TopicError, Broker, verify_topics, topic_for_event,
  topic_for_notification, topic_for_command, topic_for_query, topic_for_reply,
}
use reactive_commons_go.Kafka.Topology.Assured.{Checked-cases, IsVerified, verify_topics-IsVerified}
use reactive_commons_go.Kafka.Topology.Collection.{collect_topics_to_verify-In}
use reactive_commons_go.Kafka.Application.{
  Handlers, Listener, event, notification, command, query, reply, Act, creates_producer,
  creates_topics, opens, publishes_fields, marks_started, spawns, closes_ready, awaits_done, drains,
  closes, closes_producer, verify_dial, opened, spawned, shutdown, topics, start,
}
use reactive_commons_go.Distinct.{Distinct}
use reactive_commons_go.Kafka.Application.Listeners.{
  Registered, opened-Listed, spawned-Listed, Listed-Registered, AreKeys, opened-Distinct,
  spawned-Distinct,
}

both : {A B C : Type 0} → A ↔ B → B ↔ C → A ↔ C
both (f, f') (g, g') = (λ a. g (f a), λ c. f' (g' c))

module _ (cfg : Config) (h : Handlers) (partitions : ℕ) where
  -- The topics that the listener reads from, and that it dead-letters to.
  pub topics_of : Listener → List String
  topics_of (event name) =
      topic_for_event cfg name ∷ append (topic_for_event cfg name) cfg.dlq_suffix ∷ []
  topics_of (notification name) = topic_for_notification cfg name ∷ []
  topics_of command =
      topic_for_command cfg cfg.app_name
      ∷ append (topic_for_command cfg cfg.app_name) cfg.dlq_suffix
      ∷ []
  topics_of query = topic_for_query cfg cfg.app_name ∷ []
  topics_of (reply _) = topic_for_reply cfg ∷ []

  verified :
      (l : Listener)
      → Registered cfg h partitions l
      → All (λ t. In t (topics cfg h partitions)) (topics_of l)
  unfolding Registered topics_of
  verified l r =
      let (es, ns, cs, qs, rs) =
        collect_topics_to_verify-In cfg h.events h.notifications h.commands h.queries
          (not cfg.disable_reply_listener) in
      elim r [
        | inl (n, i, e) ↦ rw e ((es n i).0, ((es n i).1, tt))
        | inr (inl (n, i, e)) ↦ rw e (ns n i, tt)
        | inr (inr (inl (some_are, e))) ↦ rw e ((cs some_are).0, ((cs some_are).1, tt))
        | inr (inr (inr (inl (some_are, e)))) ↦ rw e (qs some_are, tt)
        | inr (inr (inr (inr (on, e)))) ↦ rw e (rs (ground (arith, on)), tt)
      ]

  -- How `Start` runs with these brokers, when it has asked for the topics `cs`.
  pub Serves : List Broker → List TopicConfig → List Act → Type 0
  Serves brokers cs acts =
      (acts
        ≡ creates_producer
          ∷ creates_topics cs
          ∷ (map opens (opened cfg h partitions)
              ++ (publishes_fields
                  ∷ marks_started
                  ∷ (map spawns (spawned cfg h partitions)
                      ++ (closes_ready
                          ∷ awaits_done
                          ∷ drains
                          ∷ (map closes (spawned cfg h partitions) ++ (closes_producer ∷ [])))))))
      × Distinct (opened cfg h partitions)
      × Distinct (spawned cfg h partitions)
      × ((l : Listener) → In l (opened cfg h partitions) ↔ Registered cfg h partitions l)
      × ((l : Listener) → In l (spawned cfg h partitions) ↔ Registered cfg h partitions l)
      × ((l : Listener)
          → Registered cfg h partitions l
          → All (λ t. In t (topics cfg h partitions)) (topics_of l))
      × IsVerified brokers cs (topics cfg h partitions)

  -- `Start` either fails before any listener is opened, and then has closed its producer if it had one;
  -- or it opens, then starts, and at the shutdown closes, one listener for each registered event and
  -- notification, one for the commands and one for the queries if there is a handler, one for the
  -- replies unless disabled, exactly one each and no other: `Ready` closes once all are started, and the producer is
  -- closed last. Every topic that one of them reads from or dead-letters to is by then verified: the
  -- cluster had it, or was asked for it and created it.
  pub start-Serves :
      (dials : List Bool) (brokers : List Broker)
      → AreKeys cfg h partitions
      → let (acts, end) = start cfg h partitions dials brokers in
        ((e : TopicError) × (end ≡ some e)
          × ((acts ≡ []) ⊎ (acts ≡ creates_producer ∷ closes_producer ∷ [])))
        ⊎ ((end ≡ none) × (cs : List TopicConfig) × Serves brokers cs acts)
  unfolding start Serves shutdown
  start-Serves dials brokers keys = elim (Bool-cases (verify_dial dials)) [
    | inr unreached ↦
        inl (broker_unreachable, ground (arith, unreached), inl (ground (arith, unreached)))
    | inl reached ↦ elim (Checked-cases (verify_topics cfg (topics cfg h partitions) brokers)) [
      | inl (e, f) ↦ inl (e, ground (arith, reached, f), inr (ground (arith, reached, f)))
      | inr (cs, f) ↦ inr (
        ground (arith, reached, f),
        cs,
        (
          ground (arith, reached, f),
          opened-Distinct cfg h partitions keys,
          spawned-Distinct cfg h partitions keys,
          λ l. both (opened-Listed cfg h partitions l) (Listed-Registered cfg h partitions l),
          λ l. both (spawned-Listed cfg h partitions l) (Listed-Registered cfg h partitions l),
          verified,
          verify_topics-IsVerified cfg (topics cfg h partitions) brokers cs f,
        ),
      )
    ]
  ]
