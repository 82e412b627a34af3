-- ===== src/Kafka/Topology/Samples.antt =====
-- Runs of the topic checks of internal/kafka.
use reactive_commons_go.Base.{◌≡◌, refl, false, [], ◌∷◌}
use reactive_commons_go.Kafka.Config.Samples.{shop}
use reactive_commons_go.Kafka.Topology.{
  topic_for_event, topic_for_notification, collect_topics_to_verify, event_topics,
  notification_topics,
}

-- An event and a notification with the same name share a topic, which is then created twice.
same_topic_twice :
    collect_topics_to_verify shop ("paid" ∷ []) ("paid" ∷ []) [] [] false
    ≡ "shop.paid" ∷ "shop.paid.dlq" ∷ "shop.paid" ∷ []
unfolding collect_topics_to_verify event_topics notification_topics topic_for_event
    topic_for_notification
same_topic_twice = refl
