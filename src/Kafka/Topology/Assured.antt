-- ===== src/Kafka/Topology/Assured.antt =====
-- internal/kafka/topology.go: after `verifyTopics`, the cluster has what was required.
use reactive_commons_go.Base.{
  ◌≡◌, ◌⊎◌, inl, inr, refl, sym, ◌∙◌, subst, ap, String, Bool, true, List, [], ◌∷◌, In, arith,
  Bool-cases,
}
use reactive_commons_go.Kafka.Config.{Config}
use reactive_commons_go.Kafka.Topology.{
  TopicConfig, TopicError, Checked, found, refused, is_existing, topics_to_create, Broker,
  unreachable, answers, verify_topics,
}

pub Checked-cases :
    {A : Type 0} (c : Checked A) → ((e : TopicError) × (c ≡ refused e)) ⊎ ((a : A) × (c ≡ found a))
Checked-cases (refused e) = inl (e, refl)
Checked-cases (found a) = inr (a, refl)

-- A topic exists, or is one of those that are asked for.
abbrev pub IsAssured : List String → List TopicConfig → String → Type 0
IsAssured partitions cs t =
    (is_existing partitions t ≡ true) ⊎ ((c : TopicConfig) × In c cs × (c.topic ≡ t))

abbrev more :
    (partitions : List String) (c : TopicConfig) (cs : List TopicConfig) (t : String)
    → IsAssured partitions cs t
    → IsAssured partitions (c ∷ cs) t
more partitions c cs t (inl there) = inl there
more partitions c cs t (inr (d, m, e)) = inr (d, inr m, e)

abbrev new : Config → String → TopicConfig
new cfg t = record {
  topic = t;
  num_partitions = cfg.default_partitions;
  replication_factor = cfg.default_replication_factor;
}

topics_to_create-Assured :
    (partitions : List String) (cfg : Config) (topics : List String) (cs : List TopicConfig)
    → topics_to_create partitions cfg topics ≡ found cs
    → (t : String) → In t topics
    → IsAssured partitions cs t
unfolding topics_to_create
topics_to_create-Assured partitions cfg [] cs e t m = absurd m
topics_to_create-Assured partitions cfg (u ∷ us) cs e t m =
    elim (Bool-cases (is_existing partitions u)) [
      | inl there ↦ elim m [
        | inl same ↦ inl (subst (λ x. is_existing partitions x ≡ true) (sym same) there)
        | inr later ↦
            topics_to_create-Assured partitions cfg us cs (ground (arith, e, there)) t later
      ]
      | inr missing ↦ elim (Checked-cases (topics_to_create partitions cfg us)) [
        | inl (err, f) ↦ absurd (ground (arith, e, f, missing))
        | inr (ds, f) ↦
            let same : new cfg u ∷ ds ≡ cs = ground (arith, e, f, missing) in
            subst (λ l. IsAssured partitions l t) same
              (elim m [
                | inl s ↦ inr (new cfg u, inl refl, sym s)
                | inr later ↦
                    more partitions (new cfg u) ds t
                      (topics_to_create-Assured partitions cfg us ds f t later)
              ])
      ]
    ]

-- What `verifyTopics` leaves: every required topic existed on the broker that answered, or is among
-- those that it asked the controller for, which then created them.
pub IsVerified : List Broker → List TopicConfig → List String → Type 0
IsVerified brokers cs [] = Unit {0}
IsVerified brokers cs (u ∷ us) =
    (partitions : List String) × (creates : List TopicConfig → Bool) × In
      (answers partitions creates) brokers
    × ((cs ≡ []) ⊎ (creates cs ≡ true))
    × ((t : String) → In t (u ∷ us) → IsAssured partitions cs t)

pub verify_topics-IsVerified :
    (cfg : Config) (topics : List String) (brokers : List Broker) (cs : List TopicConfig)
    → verify_topics cfg topics brokers ≡ found cs
    → IsVerified brokers cs topics
unfolding verify_topics IsVerified
verify_topics-IsVerified cfg [] brokers cs e = tt
verify_topics-IsVerified cfg (u ∷ us) [] cs e = absurd (ground (arith, e))
verify_topics-IsVerified cfg (u ∷ us) (unreachable ∷ brokers) cs e =
    let (ps, creates, m, made, all) = verify_topics-IsVerified cfg (u ∷ us) brokers cs e in
    (ps, creates, inr m, made, all)
verify_topics-IsVerified cfg (u ∷ us) (answers ps creates ∷ brokers) cs e =
    elim (Checked-cases (topics_to_create ps cfg (u ∷ us))) [
      | inl (err, f) ↦ absurd (ground (arith, e, f))
      | inr ([], f) ↦
          let same : [] ≡ cs = ground (arith, e, f) in
          (
            ps,
            creates,
            inl refl,
            inl (sym same),
            topics_to_create-Assured ps cfg (u ∷ us) cs (f ∙ ap found same),
          )
      | inr (d ∷ ds, f) ↦ elim (Bool-cases (creates (d ∷ ds))) [
        | inl made ↦
            let same : d ∷ ds ≡ cs = ground (arith, e, f, made) in
            (
              ps,
              creates,
              inl refl,
              inr (ap creates (sym same) ∙ made),
              topics_to_create-Assured ps cfg (u ∷ us) cs (f ∙ ap found same),
            )
        | inr failed ↦ absurd (ground (arith, e, f, failed))
      ]
    ]
