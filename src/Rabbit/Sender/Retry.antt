-- ===== src/Rabbit/Sender/Retry.antt =====
-- retryRebuild of internal/rabbit/sender.go: the attempts to rebuild the channel, and the waits between
-- them. It runs on fuel and gives `none` without enough of it; attempt `i` ends as `attempt i`.
use reactive_commons_go.Base.{
  ℕ, zero, suc, ◌+◌, ◌*◌, ◌<◌, ◌≡◌, ◌≢◌, refl, sym, ap, ◌∙◌, List, [], ◌∷◌, Option, none, some,
  arith,
}
use Prim.Native.Nat.{min}
use reactive_commons_go.Rabbit.Sender.{Rebuilt, rebuild_failed}

module _ (max_delay : ℕ) (attempt : ℕ → Rebuilt) where
  abbrev and_wait : ℕ → Option (List ℕ × Rebuilt) → Option (List ℕ × Rebuilt)
  and_wait d none = none
  and_wait d (some (waits, end)) = some (d ∷ waits, end)

  -- The waits from attempt `i` on, and how the last attempt ended.
  unfoldable pub retry_rebuild : ℕ → ℕ → ℕ → Option (List ℕ × Rebuilt)
  retry_rebuild zero i backoff = none
  retry_rebuild (suc fuel) i backoff =
      let rest = retry_rebuild fuel (suc i) (min (backoff * 2) max_delay) in
      elim (attempt i) [ rebuild_failed ↦ and_wait backoff rest | end ↦ some (backoff ∷ [], end) ]

  -- The `n` waits after one of `d`, each twice the last one but at most the largest.
  pub delays : ℕ → ℕ → List ℕ
  delays zero d = d ∷ []
  delays (suc n) d = d ∷ delays n (min (d * 2) max_delay)

  stops :
      (fuel i d : ℕ) (end : Rebuilt)
      → attempt i ≡ end
      → end ≢ rebuild_failed
      → retry_rebuild (suc fuel) i d ≡ some (d ∷ [], end)
  unfolding retry_rebuild
  stops fuel i d end e n = ground (arith, e, n)

  goes_on :
      (fuel i d : ℕ) (waits : List ℕ) (end : Rebuilt)
      → attempt i ≡ rebuild_failed
      → retry_rebuild fuel (suc i) (min (d * 2) max_delay) ≡ some (waits, end)
      → retry_rebuild (suc fuel) i d ≡ some (d ∷ waits, end)
  unfolding retry_rebuild
  goes_on fuel i d waits end e rest = ground (arith, e, rest)

  zero_plus : (i : ℕ) → 0 + i ≡ i
  zero_plus i = omega arith

  suc_plus : (k i : ℕ) → k + suc i ≡ suc k + i
  suc_plus k i = omega arith

  -- With enough fuel the loop ends with the first attempt that does not fail, after a doubled wait
  -- before each attempt.
  retry_rebuild-delays :
      (n fuel i d : ℕ)
      → attempt (n + i) ≢ rebuild_failed
      → ((k : ℕ) → k < n → attempt (k + i) ≡ rebuild_failed)
      → n < fuel
      → retry_rebuild fuel i d ≡ some (delays n d, attempt (n + i))
  unfolding delays
  retry_rebuild-delays n zero i d last failing enough = absurd (omega (arith, enough))
  retry_rebuild-delays zero (suc fuel) i d last failing enough =
      rw (zero_plus i) (stops fuel i d (attempt i) refl (λ e. last (ap attempt (zero_plus i) ∙ e)))
  retry_rebuild-delays (suc n) (suc fuel) i d last failing enough =
      goes_on fuel i d (delays n (min (d * 2) max_delay)) (attempt (suc n + i))
        (sym (ap attempt (zero_plus i)) ∙ failing 0 (omega arith))
        (retry_rebuild-delays n fuel (suc i) (min (d * 2) max_delay)
            (λ e. last (sym (ap attempt (suc_plus n i)) ∙ e))
            (λ k b. ap attempt (suc_plus k i) ∙ failing (suc k) (omega (arith, b)))
            (omega (arith, enough))
          ∙ ap (λ k. some (delays n (min (d * 2) max_delay), attempt k)) (suc_plus n i))
