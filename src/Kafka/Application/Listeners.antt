-- ===== src/Kafka/Application/Listeners.antt =====
-- internal/kafka/application.go: which listeners `Start` opens and runs.
use reactive_commons_go.Base.{
  ℕ, ◌≡◌, ◌≢◌, ◌⊎◌, ◌↔◌, inl, inr, refl, ap, String, false, List, [], ◌∷◌, ◌++◌, map, In, arith,
}
use reactive_commons_go.Kafka.Config.{Config}
use reactive_commons_go.Kafka.Application.{
  Handlers, Listener, event, notification, command, query, reply, if_any, reply_listeners, opened,
  spawned,
}
use reactive_commons_go.Distinct.{
  In-map_iff, In-append_iff, In-unless, Distinct, Distinct-append, Distinct-map, Distinct-unless,
}

Distinct-if_any : (names : List String) (k : Listener) → Distinct (if_any names k)
unfolding Distinct
Distinct-if_any [] k = tt
Distinct-if_any (x ∷ names) k = (λ m. m, tt)

if_any-In :
    (names : List String) (k l : Listener) → In l (if_any names k) ↔ ((names ≢ []) × (l ≡ k))
if_any-In [] k l = (λ m. absurd m, λ (n, e). absurd (n refl))
if_any-In (x ∷ names) k l =
    (λ m. elim m [ inl e ↦ (λ z. ground (arith, z), e) | inr b ↦ absurd b ], λ (n, e). inl e)

module _ (cfg : Config) (h : Handlers) (partitions : ℕ) where
  -- There is a handler for what the listener consumes; the reply listener needs none.
  unfoldable pub Registered : Listener → Type 0
  Registered l =
      ((name : String) × In name h.events × (l ≡ event name))
      ⊎ ((name : String) × In name h.notifications × (l ≡ notification name))
      ⊎ ((h.commands ≢ []) × (l ≡ command))
      ⊎ ((h.queries ≢ []) × (l ≡ query))
      ⊎ ((cfg.disable_reply_listener ≡ false) × (l ≡ reply partitions))

  abbrev pub events : List Listener
  events = map event h.events

  abbrev pub notifications : List Listener
  notifications = map notification h.notifications

  abbrev pub commands : List Listener
  commands = if_any h.commands command

  abbrev pub queries : List Listener
  queries = if_any h.queries query

  abbrev pub replies : List Listener
  replies = reply_listeners cfg h partitions

  -- In some order, the five lists that the listeners come from.
  abbrev pub Listed : Listener → Type 0
  Listed l = In l events ⊎ In l notifications ⊎ In l commands ⊎ In l queries ⊎ In l replies

  pub Listed-Registered : (l : Listener) → Listed l ↔ Registered l
  unfolding Registered
  Listed-Registered l = (
    λ m. elim m [
      | inl i ↦ inl ((In-map_iff event l h.events).0 i)
      | inr (inl i) ↦ inr (inl ((In-map_iff notification l h.notifications).0 i))
      | inr (inr (inl i)) ↦ inr (inr (inl ((if_any-In h.commands command l).0 i)))
      | inr (inr (inr (inl i))) ↦ inr (inr (inr (inl ((if_any-In h.queries query l).0 i))))
      | inr (inr (inr (inr i))) ↦
          inr (inr (inr (inr ((In-unless cfg.disable_reply_listener l (reply partitions)).0 i))))
    ],
    λ m. elim m [
      | inl i ↦ inl ((In-map_iff event l h.events).1 i)
      | inr (inl i) ↦ inr (inl ((In-map_iff notification l h.notifications).1 i))
      | inr (inr (inl i)) ↦ inr (inr (inl ((if_any-In h.commands command l).1 i)))
      | inr (inr (inr (inl i))) ↦ inr (inr (inr (inl ((if_any-In h.queries query l).1 i))))
      | inr (inr (inr (inr i))) ↦
          inr (inr (inr (inr ((In-unless cfg.disable_reply_listener l (reply partitions)).1 i))))
    ],
  )

  pub opened-Listed : (l : Listener) → In l (opened cfg h partitions) ↔ Listed l
  unfolding opened
  opened-Listed l = ground (
    arith,
    In-append_iff l replies (commands ++ (queries ++ (events ++ notifications))),
    In-append_iff l commands (queries ++ (events ++ notifications)),
    In-append_iff l queries (events ++ notifications),
    In-append_iff l events notifications,
  )

  pub spawned-Listed : (l : Listener) → In l (spawned cfg h partitions) ↔ Listed l
  unfolding spawned
  spawned-Listed l = ground (
    arith,
    In-append_iff l events (notifications ++ (commands ++ (queries ++ replies))),
    In-append_iff l notifications (commands ++ (queries ++ replies)),
    In-append_iff l commands (queries ++ replies),
    In-append_iff l queries replies,
  )

  -- The keys of a Go map are distinct.
  unfoldable pub AreKeys : Type 0
  AreKeys = Distinct h.events × Distinct h.notifications

  -- Which of the five lists a listener can be in.
  abbrev kind_of : Listener → ℕ
  kind_of (event _) = 0
  kind_of (notification _) = 1
  kind_of command = 2
  kind_of query = 3
  kind_of (reply _) = 4

  kind_of-event : (l : Listener) → In l events → kind_of l ≡ 0
  kind_of-event l i = let (n, j, e) = (In-map_iff event l h.events).0 i in ap kind_of e

  kind_of-notification : (l : Listener) → In l notifications → kind_of l ≡ 1
  kind_of-notification l i =
      let (n, j, e) = (In-map_iff notification l h.notifications).0 i in ap kind_of e

  kind_of-command : (l : Listener) → In l commands → kind_of l ≡ 2
  kind_of-command l i = ap kind_of ((if_any-In h.commands command l).0 i).1

  kind_of-query : (l : Listener) → In l queries → kind_of l ≡ 3
  kind_of-query l i = ap kind_of ((if_any-In h.queries query l).0 i).1

  kind_of-reply : (l : Listener) → In l replies → kind_of l ≡ 4
  kind_of-reply l i = ap kind_of ((In-unless cfg.disable_reply_listener l (reply partitions)).0 i).1

  events-Distinct : Distinct h.events → Distinct events
  events-Distinct = Distinct-map event h.events (λ a b e. ground (arith, e))

  notifications-Distinct : Distinct h.notifications → Distinct notifications
  notifications-Distinct = Distinct-map notification h.notifications (λ a b e. ground (arith, e))

  pub opened-Distinct : AreKeys → Distinct (opened cfg h partitions)
  unfolding opened AreKeys
  opened-Distinct (es, ns) =
      Distinct-append replies (commands ++ (queries ++ (events ++ notifications)))
        (Distinct-unless cfg.disable_reply_listener (reply partitions))
        (Distinct-append commands (queries ++ (events ++ notifications))
          (Distinct-if_any h.commands command)
          (Distinct-append queries (events ++ notifications) (Distinct-if_any h.queries query)
            (Distinct-append events notifications (events-Distinct es) (notifications-Distinct ns)
              (λ l i j. ground (arith, kind_of-event l i, kind_of-notification l j)))
            (λ l i j. ground (
              arith,
              kind_of-query l i,
              In-append_iff l events notifications,
              j,
              kind_of-event l,
              kind_of-notification l,
            )))
          (λ l i j. ground (
            arith,
            kind_of-command l i,
            In-append_iff l queries (events ++ notifications),
            In-append_iff l events notifications,
            j,
            kind_of-query l,
            kind_of-event l,
            kind_of-notification l,
          )))
        (λ l i j. ground (
          arith,
          kind_of-reply l i,
          In-append_iff l commands (queries ++ (events ++ notifications)),
          In-append_iff l queries (events ++ notifications),
          In-append_iff l events notifications,
          j,
          kind_of-command l,
          kind_of-query l,
          kind_of-event l,
          kind_of-notification l,
        ))

  pub spawned-Distinct : AreKeys → Distinct (spawned cfg h partitions)
  unfolding spawned AreKeys
  spawned-Distinct (es, ns) =
      Distinct-append events (notifications ++ (commands ++ (queries ++ replies)))
        (events-Distinct es)
        (Distinct-append notifications (commands ++ (queries ++ replies))
          (notifications-Distinct ns)
          (Distinct-append commands (queries ++ replies) (Distinct-if_any h.commands command)
            (Distinct-append queries replies (Distinct-if_any h.queries query)
              (Distinct-unless cfg.disable_reply_listener (reply partitions))
              (λ l i j. ground (arith, kind_of-query l i, kind_of-reply l j)))
            (λ l i j. ground (
              arith,
              kind_of-command l i,
              In-append_iff l queries replies,
              j,
              kind_of-query l,
              kind_of-reply l,
            )))
          (λ l i j. ground (
            arith,
            kind_of-notification l i,
            In-append_iff l commands (queries ++ replies),
            In-append_iff l queries replies,
            j,
            kind_of-command l,
            kind_of-query l,
            kind_of-reply l,
          )))
        (λ l i j. ground (
          arith,
          kind_of-event l i,
          In-append_iff l notifications (commands ++ (queries ++ replies)),
          In-append_iff l commands (queries ++ replies),
          In-append_iff l queries replies,
          j,
          kind_of-notification l,
          kind_of-command l,
          kind_of-query l,
          kind_of-reply l,
        ))
