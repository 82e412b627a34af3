-- ===== src/Kafka/DeadLetter/Headers.antt =====
-- internal/kafka/dlq.go: the headers of a dead letter.
use Prim.Native.String.{◌++◌ as append}
use reactive_commons_go.Base.{
  ℕ, ◌≡◌, ◌⊎◌, refl, ◌∙◌, String, List, [], ◌∷◌, Option, none, some, ◌==◌, if◌then◌else◌, arith,
  ==→≡, String_discrete,
}
use reactive_commons_go.Base.Dict.{Dict, lookup, insert, lookup-insert}
use reactive_commons_go.Base.Decimal.{format_nat}
use reactive_commons_go.Kafka.Config.{Config}
use reactive_commons_go.Kafka.Gateway.{Message}
use reactive_commons_go.Kafka.DeadLetter.{collect_headers, dlq_headers, publish_dlq}

-- The value of the last header with a key.
pub last_value : String → List (String × String) → Option String
last_value k [] = none
last_value k ((j, v) ∷ hs) = elim (last_value k hs) [
  | some w ↦ some w
  | none ↦ if j == k then some v else none
]

lookup-collect_headers :
    (k : String) (hs : List (String × String)) (m : Dict String)
    → lookup k (collect_headers hs m)
      ≡ (elim (last_value k hs) [ some w ↦ some w | none ↦ lookup k m ])
unfolding collect_headers last_value
lookup-collect_headers k [] m = refl
lookup-collect_headers k ((j, v) ∷ hs) m =
    ground (arith, lookup-collect_headers k hs (insert j v m), lookup-insert j k v m)

-- The keys that a dead letter adds or overwrites.
abbrev pub IsAdded : String → Type 0
IsAdded k =
    (k ≡ "x-dlq-reason")
    ⊎ (k ≡ "x-dlq-attempts")
    ⊎ (k ≡ "x-dlq-origin-topic")
    ⊎ (k ≡ "x-dlq-first-seen")
    ⊎ (k ≡ "x-dlq-source-service")

-- Where a key stands in the headers of a dead letter.
lookup-dlq_headers :
    (cfg : Config) (now orig_topic : String) (orig : Message) (attempts : ℕ) (reason k : String)
    → lookup k (dlq_headers cfg now orig_topic orig attempts reason) ≡ (
        if "x-dlq-source-service" == k
        then some cfg.app_name
        else if "x-dlq-first-seen" == k
        then some now
        else if "x-dlq-origin-topic" == k
        then some orig_topic
        else if "x-dlq-attempts" == k
        then some (format_nat attempts)
        else if "x-dlq-reason" == k
        then some reason
        else last_value k orig.headers)
unfolding dlq_headers lookup
lookup-dlq_headers cfg now orig_topic orig attempts reason k =
    let d = collect_headers orig.headers [] in
    let r = insert "x-dlq-reason" reason d in
    let a = insert "x-dlq-attempts" (format_nat attempts) r in
    let o = insert "x-dlq-origin-topic" orig_topic a in
    let f = insert "x-dlq-first-seen" now o in
    ground (
      arith,
      lookup-insert "x-dlq-source-service" k cfg.app_name f,
      lookup-insert "x-dlq-first-seen" k now o,
      lookup-insert "x-dlq-origin-topic" k orig_topic a,
      lookup-insert "x-dlq-attempts" k (format_nat attempts) r,
      lookup-insert "x-dlq-reason" k reason d,
      lookup-collect_headers k orig.headers [],
    )

unadded :
    (cfg : Config) (now orig_topic : String) (orig : Message) (attempts : ℕ) (reason k : String)
    → ¬ IsAdded k
    → (if "x-dlq-source-service" == k
        then some cfg.app_name
        else if "x-dlq-first-seen" == k
        then some now
        else if "x-dlq-origin-topic" == k
        then some orig_topic
        else if "x-dlq-attempts" == k
        then some (format_nat attempts)
        else if "x-dlq-reason" == k
        then some reason
        else last_value k orig.headers)
      ≡ last_value k orig.headers
unadded cfg now orig_topic orig attempts reason k other = ground (
  arith,
  other,
  ==→≡ "x-dlq-source-service" k,
  ==→≡ "x-dlq-first-seen" k,
  ==→≡ "x-dlq-origin-topic" k,
  ==→≡ "x-dlq-attempts" k,
  ==→≡ "x-dlq-reason" k,
)

-- A dead letter is the original message, its key and its value, on the topic with the suffix. It says
-- why, after how many attempts, from which topic, when and by which service it was dead-lettered,
-- whatever the original's headers were; every other header has its last value in the original, and
-- there is no further one.
pub publish_dlq-headers :
    (cfg : Config) (now orig_topic : String) (orig : Message) (attempts : ℕ) (reason : String)
    → let d = publish_dlq cfg now orig_topic orig attempts reason in
      (d.topic ≡ append orig_topic cfg.dlq_suffix)
      × (d.key ≡ orig.key)
      × (d.value ≡ orig.value)
      × (lookup "x-dlq-reason" d.headers ≡ some reason)
      × (lookup "x-dlq-attempts" d.headers ≡ some (format_nat attempts))
      × (lookup "x-dlq-origin-topic" d.headers ≡ some orig_topic)
      × (lookup "x-dlq-first-seen" d.headers ≡ some now)
      × (lookup "x-dlq-source-service" d.headers ≡ some cfg.app_name)
      × ((k : String) → ¬ IsAdded k → lookup k d.headers ≡ last_value k orig.headers)
unfolding publish_dlq String_discrete
publish_dlq-headers cfg now orig_topic orig attempts reason =
    let at = lookup-dlq_headers cfg now orig_topic orig attempts reason in
    (
      refl,
      refl,
      refl,
      at "x-dlq-reason",
      at "x-dlq-attempts",
      at "x-dlq-origin-topic",
      at "x-dlq-first-seen",
      at "x-dlq-source-service",
      λ k other. at k ∙ unadded cfg now orig_topic orig attempts reason k other,
    )
