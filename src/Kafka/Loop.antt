-- ===== src/Kafka/Loop.antt =====
-- internal/kafka/loop.go and awaitPrimed of replylistener.go: the loops of a consumer, by what each
-- round meets. Both run on fuel and give `none` without enough of it.
pub mod Ends
mod Samples
use reactive_commons_go.Base.{
  ℕ, zero, suc, Bool, true, false, List, [], ◌∷◌, Option, none, some, leb, ◌||◌, if◌then◌else◌,
}
use reactive_commons_go.Kafka.Gateway.{Message}

-- What `errors.Is` finds in a fetch's error, whether or not the loop's context has ended.
pub data FetchError : Type 0 where
  canceled deadline_exceeded other : FetchError

unfoldable pub is_canceled : FetchError → Bool
is_canceled canceled = true
is_canceled deadline_exceeded = false
is_canceled other = false

unfoldable pub is_deadline_exceeded : FetchError → Bool
is_deadline_exceeded canceled = false
is_deadline_exceeded deadline_exceeded = true
is_deadline_exceeded other = false

-- How `fetch` ends: with a message, or with an error, whether the context has ended by then, and
-- whether it ends in the wait of a second that a failure may lead to.
pub data Fetch : Type 0 where
  delivers : Message → Fetch
  fails : FetchError → Bool → Bool → Fetch

pub data Act : Type 0 where
  handles : Message → Act
  backs_off : Act

abbrev pub and_then : Act → Option (List Act) → Option (List Act)
and_then a none = none
and_then a (some acts) = some (a ∷ acts)

-- `consumerLoop.run` from the fetch numbered `i` on.
unfoldable pub consumer_loop : (ℕ → Fetch) → ℕ → ℕ → Option (List Act)
unfolding is_canceled is_deadline_exceeded
consumer_loop fetch zero i = none
consumer_loop fetch (suc fuel) i =
    let rest = consumer_loop fetch fuel (suc i) in
    elim (fetch i) [
      | delivers m ↦ and_then (handles m) rest
      | fails err ended ends_waiting ↦
          if is_canceled err || is_deadline_exceeded err || ended
          then some []
          else if ends_waiting
          then some (backs_off ∷ [])
          else and_then backs_off rest
    ]

-- `awaitPrimed` from the tick numbered `i` on: whether it closes the channel. `fetched i` is what the
-- reader's `Stats` gives there, the fetches since its last call.
unfoldable pub await_primed : (ℕ → ℕ) → (ℕ → Bool) → ℕ → ℕ → ℕ → Option Bool
await_primed fetched cancelled prime_num zero i = none
await_primed fetched cancelled prime_num (suc fuel) i =
    let rest = await_primed fetched cancelled prime_num fuel (suc i) in
    if leb prime_num (fetched i) then some true else if cancelled i then some false else rest
