-- ===== src/Kafka/Topology/Collection.antt =====
-- collectTopicsToVerify of internal/kafka/application.go: it leaves out no topic that a listener reads
-- or dead-letters to.
use Prim.Native.String.{◌++◌ as append}
use reactive_commons_go.Base.{
  String, ◌≡◌, ◌≢◌, inl, inr, refl, ap, Bool, true, false, List, [], ◌∷◌, ◌++◌, In, In-append_left,
  In-append_right, if◌then◌else◌, arith,
}
use reactive_commons_go.Kafka.Config.{Config}
use reactive_commons_go.Kafka.Topology.{
  topic_for_event, topic_for_notification, topic_for_command, topic_for_query, topic_for_reply,
  event_topics, notification_topics, command_topics, query_topics, collect_topics_to_verify,
}

event_topics-In :
    (cfg : Config) (names : List String) (name : String)
    → In name names
    → In (topic_for_event cfg name) (event_topics cfg names)
      × In (append (topic_for_event cfg name) cfg.dlq_suffix) (event_topics cfg names)
unfolding event_topics
event_topics-In cfg [] name m = absurd m
event_topics-In cfg (n ∷ names) name (inl e) = (
  inl (ap (topic_for_event cfg) e),
  inr (inl (ap (λ x. append (topic_for_event cfg x) cfg.dlq_suffix) e)),
)
event_topics-In cfg (n ∷ names) name (inr m) =
    let (a, b) = event_topics-In cfg names name m in (inr (inr a), inr (inr b))

notification_topics-In :
    (cfg : Config) (names : List String) (name : String)
    → In name names
    → In (topic_for_notification cfg name) (notification_topics cfg names)
unfolding notification_topics
notification_topics-In cfg [] name m = absurd m
notification_topics-In cfg (n ∷ names) name (inl e) = inl (ap (topic_for_notification cfg) e)
notification_topics-In cfg (n ∷ names) name (inr m) = inr (notification_topics-In cfg names name m)

command_topics-In :
    (cfg : Config) (commands : List String)
    → commands ≢ []
    → In (topic_for_command cfg cfg.app_name) (command_topics cfg commands)
      × In
          (append (topic_for_command cfg cfg.app_name) cfg.dlq_suffix)
          (command_topics cfg commands)
command_topics-In cfg [] n = absurd (n refl)
command_topics-In cfg (_ ∷ _) n = (inl refl, inr (inl refl))

query_topics-In :
    (cfg : Config) (queries : List String)
    → queries ≢ []
    → In (topic_for_query cfg cfg.app_name) (query_topics cfg queries)
query_topics-In cfg [] n = absurd (n refl)
query_topics-In cfg (_ ∷ _) n = inl refl

reply_topics-In :
    (cfg : Config) (reply_enabled : Bool)
    → reply_enabled ≡ true
    → In (topic_for_reply cfg) (if reply_enabled then topic_for_reply cfg ∷ [] else [])
reply_topics-In cfg true e = inl refl
reply_topics-In cfg false e = absurd (ground (arith, e))

-- Every topic that a listener of the application reads, and every dead letter topic that it writes, is
-- among those that are verified: each event's two, each notification's, the commands' two and the
-- queries' if there is a handler, and the replies' if they are enabled.
pub collect_topics_to_verify-In :
    (cfg : Config) (events notifs commands queries : List String) (reply_enabled : Bool)
    → let all = collect_topics_to_verify cfg events notifs commands queries reply_enabled in
      ((name : String)
        → In name events
        → In (topic_for_event cfg name) all
          × In (append (topic_for_event cfg name) cfg.dlq_suffix) all)
      × ((name : String) → In name notifs → In (topic_for_notification cfg name) all)
      × (commands ≢ []
          → In (topic_for_command cfg cfg.app_name) all
            × In (append (topic_for_command cfg cfg.app_name) cfg.dlq_suffix) all)
      × (queries ≢ [] → In (topic_for_query cfg cfg.app_name) all)
      × (reply_enabled ≡ true → In (topic_for_reply cfg) all)
unfolding collect_topics_to_verify
collect_topics_to_verify-In cfg events notifs commands queries reply_enabled = (
  λ name m.
      let (a, b) = event_topics-In cfg events name m in
      (
        In-append_left _ es (ns ++ (cs ++ (qs ++ rs))) a,
        In-append_left _ es (ns ++ (cs ++ (qs ++ rs))) b,
      ),
  λ name m.
      past_events _
        (In-append_left _ ns (cs ++ (qs ++ rs)) (notification_topics-In cfg notifs name m)),
  λ n.
      let (a, b) = command_topics-In cfg commands n in
      (
        past_notifs _ (In-append_left _ cs (qs ++ rs) a),
        past_notifs _ (In-append_left _ cs (qs ++ rs) b),
      ),
  λ n.
      past_notifs _
        (In-append_right _ cs (qs ++ rs) (In-append_left _ qs rs (query_topics-In cfg queries n))),
  λ e. past_notifs _ (
      In-append_right _ cs (qs ++ rs)
        (In-append_right _ qs rs (reply_topics-In cfg reply_enabled e))),
)
  where
    es : List String
    es = event_topics cfg events

    ns : List String
    ns = notification_topics cfg notifs

    cs : List String
    cs = command_topics cfg commands

    qs : List String
    qs = query_topics cfg queries

    rs : List String
    rs = if reply_enabled then topic_for_reply cfg ∷ [] else []

    past_events :
        (t : String) → In t (ns ++ (cs ++ (qs ++ rs))) → In t (es ++ (ns ++ (cs ++ (qs ++ rs))))
    past_events t m = In-append_right t es (ns ++ (cs ++ (qs ++ rs))) m

    past_notifs : (t : String) → In t (cs ++ (qs ++ rs)) → In t (es ++ (ns ++ (cs ++ (qs ++ rs))))
    past_notifs t m = past_events t (In-append_right t ns (cs ++ (qs ++ rs)) m)
