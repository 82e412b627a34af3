-- ===== src/Kafka/Topology.antt =====
-- internal/kafka/topology.go, and collectTopicsToVerify of application.go: the names of topics and
-- consumer groups, and the check that the topics exist. The cluster is a parameter: what each broker
-- answers when it is dialed. A `range` over a map visits the list of its keys that is passed.
pub mod Creation
pub mod Collection
pub mod Assured
mod Samples
use Prim.Native.String.{◌++◌ as append}
use reactive_commons_go.Base.{
  String, Bool, true, false, not, List, [], ◌∷◌, ◌++◌, Option, none, some, ◌==◌, if◌then◌else◌,
  is_empty,
}
use reactive_commons_go.Base.Int.{ℤ}
use reactive_commons_go.Kafka.Config.{Config}

module _ (cfg : Config) where
  unfoldable pub topic_for_event : String → String
  topic_for_event name = elim cfg.topic_name_func [
    | some f ↦ f name
    | none ↦ append cfg.app_name (append "." name)
  ]

  unfoldable pub topic_for_notification : String → String
  topic_for_notification name = elim cfg.notification_topic_name_func [
    | some f ↦ f name
    | none ↦ append cfg.app_name (append "." name)
  ]

  unfoldable pub topic_for_command : String → String
  topic_for_command app = elim cfg.commands_topic_name_func [
    | some f ↦ f app
    | none ↦ append app ".commands"
  ]

  unfoldable pub topic_for_query : String → String
  topic_for_query app = elim cfg.queries_topic_name_func [
    | some f ↦ f app
    | none ↦ append app ".queries"
  ]

  unfoldable pub topic_for_reply : String
  topic_for_reply = elim cfg.replies_topic_name_func [
    | some f ↦ f cfg.app_name
    | none ↦ append cfg.app_name ".replies"
  ]

  unfoldable pub group_prefix : String
  group_prefix =
      if is_empty cfg.consumer_group_prefix then cfg.app_name else cfg.consumer_group_prefix

  unfoldable pub group_id_for_event : String → String
  unfolding group_prefix
  group_id_for_event name = append group_prefix (append "." name)

  unfoldable pub group_id_for_notification : String → String → String
  unfolding group_prefix
  group_id_for_notification name instance_id =
      append group_prefix (append "." (append name (append "." instance_id)))

  unfoldable pub group_id_for_command : String
  unfolding group_prefix
  group_id_for_command = append group_prefix ".commands"

  unfoldable pub group_id_for_query : String
  unfolding group_prefix
  group_id_for_query = append group_prefix ".queries"

  unfoldable pub group_id_for_reply : String
  unfolding group_prefix
  group_id_for_reply = append group_prefix (append ".replies." cfg.instance_id)

  -- The loops of `collectTopicsToVerify` over the events and the notifications.
  unfoldable pub event_topics : List String → List String
  unfolding topic_for_event
  event_topics [] = []
  event_topics (name ∷ names) =
      topic_for_event name ∷ append (topic_for_event name) cfg.dlq_suffix ∷ event_topics names

  unfoldable pub notification_topics : List String → List String
  unfolding topic_for_notification
  notification_topics [] = []
  notification_topics (name ∷ names) = topic_for_notification name ∷ notification_topics names

  abbrev pub command_topics : List String → List String
  command_topics [] = []
  command_topics (_ ∷ _) =
      topic_for_command cfg.app_name ∷ append (topic_for_command cfg.app_name) cfg.dlq_suffix ∷ []

  abbrev pub query_topics : List String → List String
  query_topics [] = []
  query_topics (_ ∷ _) = topic_for_query cfg.app_name ∷ []

  unfoldable pub collect_topics_to_verify :
      List String → List String → List String → List String → Bool → List String
  unfolding event_topics notification_topics topic_for_command topic_for_query topic_for_reply
  collect_topics_to_verify events notifs commands queries reply_enabled =
      event_topics events
      ++ (notification_topics notifs
          ++ (command_topics commands
              ++ (query_topics queries ++ (if reply_enabled then topic_for_reply ∷ [] else []))))

pub record TopicConfig : Type 0 where
  pub topic : String
  pub num_partitions : ℤ
  pub replication_factor : ℤ

pub data TopicError : Type 0 where
  topic_missing : String → TopicError
  broker_unreachable creation_failed : TopicError

pub data Checked (A : Type 0) : Type 0 where
  found : A → Checked A
  refused : TopicError → Checked A

-- `_, ok := existing[t]`, where `existing` is the set of the partitions' topics.
unfoldable pub is_existing : List String → String → Bool
is_existing [] t = false
is_existing (p ∷ partitions) t = if p == t then true else is_existing partitions t

abbrev pub and_create : Config → String → Checked (List TopicConfig) → Checked (List TopicConfig)
and_create cfg t (found cs) = found (
    record {
      topic = t;
      num_partitions = cfg.default_partitions;
      replication_factor = cfg.default_replication_factor;
    }
    ∷ cs)
and_create cfg t (refused e) = refused e

unfoldable pub topics_to_create : List String → Config → List String → Checked (List TopicConfig)
unfolding is_existing
topics_to_create partitions cfg [] = found []
topics_to_create partitions cfg (t ∷ topics) =
    let rest = topics_to_create partitions cfg topics in
    if is_existing partitions t
    then rest
    else if not cfg.allow_auto_create_topics
    then refused (topic_missing t)
    else and_create cfg t rest

-- What a broker answers: no connection or no partition list, or the topics of its partitions and
-- whether the controller creates what is asked.
pub data Broker : Type 0 where
  unreachable : Broker
  answers : List String → (List TopicConfig → Bool) → Broker

unfoldable pub verify_topics : Config → List String → List Broker → Checked (List TopicConfig)
unfolding topics_to_create
verify_topics cfg [] brokers = found []
verify_topics cfg (t ∷ topics) [] = refused broker_unreachable
verify_topics cfg (t ∷ topics) (unreachable ∷ brokers) = verify_topics cfg (t ∷ topics) brokers
verify_topics cfg (t ∷ topics) (answers partitions creates ∷ brokers) =
    elim (topics_to_create partitions cfg (t ∷ topics)) [
      | refused e ↦ refused e
      | found [] ↦ found []
      | found (c ∷ cs) ↦ if creates (c ∷ cs) then found (c ∷ cs) else refused creation_failed
    ]
