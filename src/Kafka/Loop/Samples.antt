-- ===== src/Kafka/Loop/Samples.antt =====
-- Runs of the loops of a Kafka consumer.
use reactive_commons_go.Base.{
  ℕ, zero, suc, ◌<◌, ◌≡◌, refl, Bool, true, false, [], ◌∷◌, some, leb, arith,
}
use reactive_commons_go.Kafka.Gateway.{Message}
use reactive_commons_go.Kafka.Loop.{
  deadline_exceeded, other, Fetch, delivers, fails, handles, backs_off, consumer_loop, await_primed,
}
use reactive_commons_go.Kafka.Loop.Ends.{
  rounds, is_last, is_settled, consumer_loop-ends, await_primed-ends,
}

abbrev message : Message
message = record { topic = "shop.paid"; key = "e-1"; value = "{}"; headers = [] }

-- A failed fetch, a message, and a deadline that is not the context's.
abbrev fetch : ℕ → Fetch
fetch zero = fails other false false
fetch (suc zero) = delivers message
fetch (suc (suc _)) = fails deadline_exceeded false false

handled : consumer_loop fetch 3 0 ≡ some (backs_off ∷ handles message ∷ [])
unfolding consumer_loop
handled = refl

consumer_loop-ends_example : consumer_loop fetch 3 0 ≡ some (rounds fetch 2 0)
unfolding is_last
consumer_loop-ends_example = consumer_loop-ends fetch 2 3 refl before (omega arith)
  where
    before : (k : ℕ) → k < 2 → is_last (fetch k) ≡ false
    before zero b = refl
    before (suc zero) b = refl
    before (suc (suc k)) b = absurd (omega (arith, b))

-- Two partitions, whose first fetches fall into different ticks.
abbrev fetched : ℕ → ℕ
fetched zero = 1
fetched (suc zero) = 1
fetched (suc (suc _)) = 0

abbrev cancelled : ℕ → Bool
cancelled zero = false
cancelled (suc zero) = false
cancelled (suc (suc _)) = true

await_primed-ends_example : await_primed fetched cancelled 2 3 0 ≡ some (leb 2 (fetched 2))
await_primed-ends_example = await_primed-ends fetched cancelled 2 2 3 refl before (omega arith)
  where
    before : (k : ℕ) → k < 2 → is_settled fetched cancelled 2 k ≡ false
    before zero b = refl
    before (suc zero) b = refl
    before (suc (suc k)) b = absurd (omega (arith, b))
