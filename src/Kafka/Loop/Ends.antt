-- ===== src/Kafka/Loop/Ends.antt =====
-- internal/kafka/loop.go and awaitPrimed of replylistener.go: when the loops end, and with what.
use reactive_commons_go.Base.{
  ℕ, zero, suc, ◌+◌, ◌<◌, ◌≡◌, refl, sym, ap, ◌∙◌, Bool, true, false, ◌||◌, List, [], ◌∷◌, ◌++◌,
  some, leb, arith,
}
use reactive_commons_go.Kafka.Loop.{
  canceled, deadline_exceeded, other, Fetch, delivers, fails, Act, handles, backs_off,
  consumer_loop, await_primed,
}

-- A fetch after which the loop ends.
unfoldable pub is_last : Fetch → Bool
is_last (delivers _) = false
is_last (fails canceled _ _) = true
is_last (fails deadline_exceeded _ _) = true
is_last (fails other true _) = true
is_last (fails other false ends_waiting) = ends_waiting

-- What one round does.
unfoldable pub act_of : Fetch → List Act
act_of (delivers m) = handles m ∷ []
act_of (fails canceled _ _) = []
act_of (fails deadline_exceeded _ _) = []
act_of (fails other true _) = []
act_of (fails other false _) = backs_off ∷ []

-- The rounds from `i` on, `n` of them and the last one.
pub rounds : (ℕ → Fetch) → ℕ → ℕ → List Act
rounds fetch zero i = act_of (fetch i)
rounds fetch (suc n) i = act_of (fetch i) ++ rounds fetch n (suc i)

stops :
    (fetch : ℕ → Fetch) (fuel i : ℕ) (f : Fetch)
    → fetch i ≡ f
    → is_last f ≡ true
    → consumer_loop fetch (suc fuel) i ≡ some (act_of f)
unfolding consumer_loop is_last act_of
stops fetch fuel i (delivers m) e last = absurd (ground (arith, last))
stops fetch fuel i (fails canceled a w) e last = ground (arith, e)
stops fetch fuel i (fails deadline_exceeded a w) e last = ground (arith, e)
stops fetch fuel i (fails other true w) e last = ground (arith, e)
stops fetch fuel i (fails other false w) e last = ground (arith, e, last)

goes_on :
    (fetch : ℕ → Fetch) (fuel i : ℕ) (f : Fetch) (acts : List Act)
    → fetch i ≡ f
    → is_last f ≡ false
    → consumer_loop fetch fuel (suc i) ≡ some acts
    → consumer_loop fetch (suc fuel) i ≡ some (act_of f ++ acts)
unfolding consumer_loop is_last act_of
goes_on fetch fuel i (delivers m) acts e going rest = ground (arith, e, rest)
goes_on fetch fuel i (fails canceled a w) acts e going rest = absurd (ground (arith, going))
goes_on fetch fuel i (fails deadline_exceeded a w) acts e going rest =
    absurd (ground (arith, going))
goes_on fetch fuel i (fails other true w) acts e going rest = absurd (ground (arith, going))
goes_on fetch fuel i (fails other false w) acts e going rest = ground (arith, e, going, rest)

zero_plus : (i : ℕ) → 0 + i ≡ i
zero_plus i = omega arith

plus_zero : (n : ℕ) → n + 0 ≡ n
plus_zero n = omega arith

suc_plus : (k i : ℕ) → k + suc i ≡ suc k + i
suc_plus k i = omega arith

consumer_loop-rounds :
    (fetch : ℕ → Fetch) (n fuel i : ℕ)
    → is_last (fetch (n + i)) ≡ true
    → ((k : ℕ) → k < n → is_last (fetch (k + i)) ≡ false)
    → n < fuel
    → consumer_loop fetch fuel i ≡ some (rounds fetch n i)
unfolding rounds
consumer_loop-rounds fetch n zero i last going enough = absurd (omega (arith, enough))
consumer_loop-rounds fetch zero (suc fuel) i last going enough =
    let at = λ (k : ℕ). is_last (fetch k) in
    stops fetch fuel i (fetch i) refl (sym (ap at (zero_plus i)) ∙ last)
consumer_loop-rounds fetch (suc n) (suc fuel) i last going enough =
    let at = λ (k : ℕ). is_last (fetch k) in
    goes_on fetch fuel i (fetch i) (rounds fetch n (suc i)) refl
      (sym (ap at (zero_plus i)) ∙ going 0 (omega arith))
      (consumer_loop-rounds fetch n fuel (suc i) (ap at (suc_plus n i) ∙ last)
        (λ k b. ap at (suc_plus k i) ∙ going (suc k) (omega (arith, b))) (omega (arith, enough)))

-- The tick ends the wait: one interval has enough fetches, or the context has ended.
abbrev pub is_settled : (ℕ → ℕ) → (ℕ → Bool) → ℕ → ℕ → Bool
is_settled fetched cancelled prime_num i = leb prime_num (fetched i) || cancelled i

await_primed-settles :
    (fetched : ℕ → ℕ) (cancelled : ℕ → Bool) (prime_num n fuel i : ℕ)
    → is_settled fetched cancelled prime_num (n + i) ≡ true
    → ((k : ℕ) → k < n → is_settled fetched cancelled prime_num (k + i) ≡ false)
    → n < fuel
    → await_primed fetched cancelled prime_num fuel i ≡ some (leb prime_num (fetched (n + i)))
unfolding await_primed
await_primed-settles fetched cancelled prime_num n zero i last going enough =
    absurd (omega (arith, enough))
await_primed-settles fetched cancelled prime_num zero (suc fuel) i last going enough =
    let at = ap (is_settled fetched cancelled prime_num) (zero_plus i) in
    let same = ap (λ k. leb prime_num (fetched k)) (zero_plus i) in
    let here : is_settled fetched cancelled prime_num i ≡ true = sym at ∙ last in
    ground (arith, here, same)
await_primed-settles fetched cancelled prime_num (suc n) (suc fuel) i last going enough =
    let at = is_settled fetched cancelled prime_num in
    let now : is_settled fetched cancelled prime_num i ≡ false =
      sym (ap at (zero_plus i)) ∙ going 0 (omega arith) in
    let rest =
      await_primed-settles fetched cancelled prime_num n fuel (suc i) (ap at (suc_plus n i) ∙ last)
        (λ k b. ap at (suc_plus k i) ∙ going (suc k) (omega (arith, b))) (omega (arith, enough)) in
    let same = ap (λ k. leb prime_num (fetched k)) (suc_plus n i) in ground (arith, now, rest, same)

-- The consumer's loop ends, with enough fuel, at the first fetch that fails with the error of a cancelled
-- context or of a passed deadline, whether or not the loop's own context has ended, or that fails in
-- another way once that context has ended, or before it ends in the wait that follows. By then the
-- loop has handled every message that was fetched, once and in order, and has waited after each other
-- failure, and after this one only in the last case.
pub consumer_loop-ends :
    (fetch : ℕ → Fetch) (n fuel : ℕ)
    → is_last (fetch n) ≡ true
    → ((k : ℕ) → k < n → is_last (fetch k) ≡ false)
    → n < fuel
    → consumer_loop fetch fuel 0 ≡ some (rounds fetch n 0)
consumer_loop-ends fetch n fuel last going enough =
    let at = λ (k : ℕ). is_last (fetch k) in
    consumer_loop-rounds fetch n fuel 0 (ap at (plus_zero n) ∙ last)
      (λ k b. ap at (plus_zero k) ∙ going k b) enough

-- The wait for the reply consumer ends, with enough fuel, at the first tick that finds as many fetches
-- since the tick before as there are partitions, or the context ended. Only the first of these primes
-- it: fetches of earlier ticks do not count, so partitions that are fetched in different ticks do not
-- prime it.
pub await_primed-ends :
    (fetched : ℕ → ℕ) (cancelled : ℕ → Bool) (prime_num n fuel : ℕ)
    → is_settled fetched cancelled prime_num n ≡ true
    → ((k : ℕ) → k < n → is_settled fetched cancelled prime_num k ≡ false)
    → n < fuel
    → await_primed fetched cancelled prime_num fuel 0 ≡ some (leb prime_num (fetched n))
await_primed-ends fetched cancelled prime_num n fuel settled waiting enough =
    let tick = is_settled fetched cancelled prime_num in
    await_primed-settles fetched cancelled prime_num n fuel 0 (ap tick (plus_zero n) ∙ settled)
      (λ k b. ap tick (plus_zero k) ∙ waiting k b) enough
    ∙ ap (λ k. some (leb prime_num (fetched k))) (plus_zero n)
