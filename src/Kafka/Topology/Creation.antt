-- ===== src/Kafka/Topology/Creation.antt =====
-- internal/kafka/topology.go: which topics `topicsToCreate` asks for.
use reactive_commons_go.Base.{
  ℕ, ◌+◌, String, ◌≡◌, ◌⊎◌, inl, inr, refl, sym, subst, true, false, List, [], ◌∷◌, In, ◌==◌,
  if◌then◌else◌, arith, ==→≡, Bool-cases,
}
use reactive_commons_go.Kafka.Config.{Config}
use reactive_commons_go.Kafka.Topology.{
  TopicConfig, topic_missing, found, refused, is_existing, topics_to_create,
}

-- How often a topic is required, and how often it is to be created.
pub required : String → List String → ℕ
required t [] = 0
required t (u ∷ us) = if u == t then required t us + 1 else required t us

pub created : String → List TopicConfig → ℕ
created t [] = 0
created t (c ∷ cs) = if c.topic == t then created t cs + 1 else created t cs

-- With auto-creation `topicsToCreate` always succeeds, and it asks for a topic exactly as often as it
-- is required if the cluster has no such topic, and not at all if it has: a topic that two handlers
-- need is asked for twice.
pub topics_to_create-counts :
    (partitions topics : List String) (cfg : Config)
    → cfg.allow_auto_create_topics ≡ true
    → (cs : List TopicConfig) × (topics_to_create partitions cfg topics ≡ found cs)
      × ((t : String) → created t cs ≡ (if is_existing partitions t then 0 else required t topics))
unfolding topics_to_create created required
topics_to_create-counts partitions [] cfg auto = ([], refl, λ t. ground arith)
topics_to_create-counts partitions (u ∷ us) cfg auto =
    let (cs, e, h) = topics_to_create-counts partitions us cfg auto in
    elim (Bool-cases (is_existing partitions u)) [
      | inl there ↦ (cs, ground (arith, there, e), λ t. ground (arith, h t, there, ==→≡ u t))
      | inr missing ↦ (
        record {
          topic = u;
          num_partitions = cfg.default_partitions;
          replication_factor = cfg.default_replication_factor;
        }
            ∷ cs,
        ground (arith, missing, e, auto),
        λ t. ground (arith, h t, missing, ==→≡ u t),
      )
    ]

-- Without auto-creation it succeeds, with nothing to create, exactly if the cluster has every topic
-- that is required, and else it names a required topic that the cluster lacks.
pub topics_to_create-missing :
    (partitions topics : List String) (cfg : Config)
    → cfg.allow_auto_create_topics ≡ false
    → ((topics_to_create partitions cfg topics ≡ found [])
        × ((t : String) → In t topics → is_existing partitions t ≡ true))
      ⊎ ((t : String) × (topics_to_create partitions cfg topics ≡ refused (topic_missing t))
          × In t topics
          × (is_existing partitions t ≡ false))
unfolding topics_to_create
topics_to_create-missing partitions [] cfg manual = inl (refl, λ t m. absurd m)
topics_to_create-missing partitions (u ∷ us) cfg manual =
    elim (Bool-cases (is_existing partitions u)) [
      | inr missing ↦ inr (u, ground (arith, missing, manual), inl refl, missing)
      | inl there ↦ elim (topics_to_create-missing partitions us cfg manual) [
        | inl (e, all) ↦ inl (
          ground (arith, there, e),
          λ t m. elim m [
            | inl s ↦ subst (λ x. is_existing partitions x ≡ true) (sym s) there
            | inr n ↦ all t n
          ],
        )
        | inr (t, e, m, missing) ↦ inr (t, ground (arith, there, e), inr m, missing)
      ]
    ]
