-- ===== src/Kafka/Listener/Commit.antt =====
-- internal/kafka/eventlistener.go and commandlistener.go: which attempts a message gets, and when it
-- is committed.
use mathlib.Core.List.{append_assoc, append-nil}
use reactive_commons_go.Base.{
  ℕ, zero, suc, ◌+◌, ◌<◌, ◌≡◌, ◌≢◌, ◌⊎◌, inl, inr, refl, sym, ap, subst, ◌∙◌, String, Bool, true,
  false, List, [], ◌∷◌, ◌++◌, Option, none, some, is_empty, arith, Bool-cases, Option-cases,
}
use reactive_commons_go.Async.{DomainEvent, Command, RawEnvelope}
use reactive_commons_go.Async.JsonValue.{Json}
use reactive_commons_go.Envelope.{decoded, refused, DecodeError, missing_fields, unmarshal_raw}
use reactive_commons_go.Kafka.Config.{Config}
use reactive_commons_go.Kafka.Listener.{
  Effect, invokes, commits, Outcome, invoke_handler, LoopEnd, succeeded, stopped, exhausted,
  attempts_of, wait_before, is_stopped, attempt_loop, dead_letter, reason_of, conclude,
  process_handled, process_event, process_command, event_of, command_of, decode_failed, Reason,
}

suc_shift : (a n : ℕ) → suc a + n ≡ a + suc n
suc_shift a n = ground arith

zero_plus : (n : ℕ) → 0 + n ≡ n
zero_plus n = ground arith

-- `n` attempts from the one numbered `a`, each after its wait.
pub trace : Config → ℕ → ℕ → List Effect
trace cfg zero a = []
trace cfg (suc n) a = wait_before cfg a ++ (invokes a ∷ trace cfg n (suc a))

module _ (kind : String) (cfg : Config) (handler : ℕ → Outcome) (cancelled : ℕ → Bool) where
  -- The handler fails in each of `n` attempts from `a` on.
  pub Fail : ℕ → ℕ → Type 0
  Fail a n = (i : ℕ) → i < n → invoke_handler kind (handler (a + i)) ≢ none

  -- The context does not end in the waits before `n` attempts from `a` on.
  pub Last : ℕ → ℕ → Type 0
  Last a n = (i : ℕ) → i < n → is_stopped cancelled (a + i) ≡ false

  -- What a loop of `left` attempts from `a` on does, by how it ends.
  pub Loops : ℕ → ℕ → List Effect → LoopEnd → Type 0
  Loops a left es succeeded =
      (n : ℕ) × (n < left)
      × Fail a n
      × Last a (suc n)
      × (invoke_handler kind (handler (a + n)) ≡ none)
      × (es ≡ trace cfg (suc n) a)
  Loops a left es stopped =
      (n : ℕ) × (n < left)
      × Fail a n
      × Last a n
      × (is_stopped cancelled (a + n) ≡ true)
      × (es ≡ trace cfg n a ++ wait_before cfg (a + n))
  Loops a left es (exhausted r) = Fail a left × Last a left × (es ≡ trace cfg left a)

  shift_Fail : (a n : ℕ) → invoke_handler kind (handler a) ≢ none → Fail (suc a) n → Fail a (suc n)
  unfolding Fail
  shift_Fail a n f h zero b = ground (arith, f)
  shift_Fail a n f h (suc i) b = ground (arith, h i)

  shift_Last : (a n : ℕ) → is_stopped cancelled a ≡ false → Last (suc a) n → Last a (suc n)
  unfolding Last
  shift_Last a n f h zero b = ground (arith, f)
  shift_Last a n f h (suc i) b = ground (arith, h i)

  shift_Loops :
      (a left : ℕ) (es : List Effect) (end : LoopEnd)
      → is_stopped cancelled a ≡ false
      → invoke_handler kind (handler a) ≢ none
      → Loops (suc a) left es end
      → Loops a (suc left) (wait_before cfg a ++ (invokes a ∷ es)) end
  unfolding Loops trace
  shift_Loops a left es succeeded s f (n, b, h, l, z, e) = (
    suc n,
    ground (arith, b),
    shift_Fail a n f h,
    shift_Last a (suc n) s l,
    ground (arith, z),
    ap (λ x. wait_before cfg a ++ (invokes a ∷ x)) e,
  )
  shift_Loops a left es stopped s f (n, b, h, l, z, e) = (
    suc n,
    ground (arith, b),
    shift_Fail a n f h,
    shift_Last a n s l,
    ground (arith, z),
    ap (λ x. wait_before cfg a ++ (invokes a ∷ x)) e
        ∙ ap (λ k. wait_before cfg a ++ (invokes a ∷ (trace cfg n (suc a) ++ wait_before cfg k)))
            (suc_shift a n)
        ∙ sym (
            append_assoc (wait_before cfg a) (invokes a ∷ trace cfg n (suc a))
              (wait_before cfg (a + suc n))),
  )
  shift_Loops a left es (exhausted r) s f (h, l, e) = (
    shift_Fail a left f h,
    shift_Last a left s l,
    ap (λ x. wait_before cfg a ++ (invokes a ∷ x)) e,
  )

  attempt_loop-stops :
      (left a : ℕ) (r : Option String)
      → is_stopped cancelled a ≡ true
      → attempt_loop kind cfg handler cancelled (suc left) a r ≡ (wait_before cfg a, stopped)
  unfolding attempt_loop
  attempt_loop-stops left a r e = ground (arith, e)

  attempt_loop-succeeds :
      (left a : ℕ) (r : Option String)
      → is_stopped cancelled a ≡ false
      → invoke_handler kind (handler a) ≡ none
      → attempt_loop kind cfg handler cancelled (suc left) a r
        ≡ (wait_before cfg a ++ (invokes a ∷ []), succeeded)
  unfolding attempt_loop
  attempt_loop-succeeds left a r e f = ground (arith, e, f)

  attempt_loop-fails :
      (left a : ℕ) (r : Option String) (m : String)
      → is_stopped cancelled a ≡ false
      → invoke_handler kind (handler a) ≡ some m
      → attempt_loop kind cfg handler cancelled (suc left) a r ≡ (
        wait_before cfg a
            ++ (invokes a ∷ (attempt_loop kind cfg handler cancelled left (suc a) (some m)).0),
        (attempt_loop kind cfg handler cancelled left (suc a) (some m)).1,
      )
  unfolding attempt_loop
  attempt_loop-fails left a r m e f = ground (arith, e, f)

  attempt_loop-Loops :
      (left a : ℕ) (r : Option String)
      → Loops a left
          (attempt_loop kind cfg handler cancelled left a r).0
          (attempt_loop kind cfg handler cancelled left a r).1
  unfolding attempt_loop Loops trace Fail Last
  attempt_loop-Loops zero a r = (λ i b. ground (arith, b), λ i b. ground (arith, b), refl)
  attempt_loop-Loops (suc left) a r = elim (Bool-cases (is_stopped cancelled a)) [
    | inl e ↦
        subst (λ p. Loops a (suc left) p.0 p.1) (sym (attempt_loop-stops left a r e))
          (
            0,
            ground arith,
            λ i b. ground (arith, b),
            λ i b. ground (arith, b),
            ground (arith, e),
            ground arith,
          )
    | inr e ↦ elim (Option-cases (invoke_handler kind (handler a))) [
      | inl f ↦
          subst (λ p. Loops a (suc left) p.0 p.1) (sym (attempt_loop-succeeds left a r e f))
            (
              0,
              ground arith,
              λ i b. ground (arith, b),
              shift_Last a 0 e (λ i b. ground (arith, b)),
              ground (arith, f),
              refl,
            )
      | inr (m, f) ↦
          subst (λ p. Loops a (suc left) p.0 p.1) (sym (attempt_loop-fails left a r m e f))
            (shift_Loops a left (attempt_loop kind cfg handler cancelled left (suc a) (some m)).0
              (attempt_loop kind cfg handler cancelled left (suc a) (some m)).1 e
              (ground (arith, f)) (attempt_loop-Loops left (suc a) (some m)))
    ]
  ]

  -- How a message with an envelope ends: at the first attempt that succeeds, and then it is committed;
  -- at the first wait in which the context ends, and then it is not; or in the dead letter topic.
  pub Ends : Bool → List Effect → Type 0
  Ends dlq_takes es =
      ((n : ℕ) × (n < attempts_of cfg)
        × Fail 0 n
        × Last 0 (suc n)
        × (invoke_handler kind (handler n) ≡ none)
        × (es ≡ trace cfg (suc n) 0 ++ (commits ∷ [])))
      ⊎ ((n : ℕ) × (n < attempts_of cfg)
          × Fail 0 n
          × Last 0 n
          × (is_stopped cancelled n ≡ true)
          × (es ≡ trace cfg n 0 ++ wait_before cfg n))
      ⊎ (Fail 0 (attempts_of cfg)
          × Last 0 (attempts_of cfg)
          × ((r : Reason) × (es
                ≡ trace cfg (attempts_of cfg) 0 ++ dead_letter dlq_takes (attempts_of cfg) r)))

  Loops-Ends :
      (dlq_takes : Bool) (es : List Effect) (end : LoopEnd)
      → Loops 0 (attempts_of cfg) es end
      → Ends dlq_takes (es ++ conclude cfg dlq_takes end)
  unfolding Loops Ends conclude
  Loops-Ends dlq_takes es succeeded (n, b, f, l, z, e) =
      inl (n, b, f, l, ground (arith, z), ap (λ x. x ++ (commits ∷ [])) e)
  Loops-Ends dlq_takes es stopped (n, b, f, l, z, e) = inr (
      inl (
        n,
        b,
        f,
        l,
        ground (arith, z),
        append-nil es ∙ e ∙ ap (λ k. trace cfg n 0 ++ wait_before cfg k) (zero_plus n),
      ))
  Loops-Ends dlq_takes es (exhausted r) (f, l, e) = inr (
      inr (
        f,
        l,
        (reason_of r, ap (λ x. x ++ dead_letter dlq_takes (attempts_of cfg) (reason_of r)) e),
      ))

  process_handled-Ends :
      (dlq_takes : Bool) → Ends dlq_takes (process_handled kind cfg handler cancelled dlq_takes)
  unfolding process_handled
  process_handled-Ends dlq_takes =
      Loops-Ends dlq_takes (attempt_loop kind cfg handler cancelled (attempts_of cfg) 0 none).0
        (attempt_loop kind cfg handler cancelled (attempts_of cfg) 0 none).1
        (attempt_loop-Loops (attempts_of cfg) 0 none)

module _ (equal_fold : String → String → Bool) (cfg : Config) (cancelled : ℕ → Bool)
    (dlq_takes : Bool) where
  -- An event is committed only once its handler has succeeded or the dead letter topic has it: a value
  -- that is not an envelope goes there after 0 attempts; an event is attempted in turn until the first
  -- success, which is committed, or until the context ends in a wait, which leaves it uncommitted, or
  -- else exactly `MaxRetryAttempts` times (once if that is not positive), and then it is dead-lettered.
  pub process_event-Ends :
      (handler : DomainEvent (Option Json) → ℕ → Outcome) (value : Option Json)
      → ((e : DecodeError)
          → unmarshal_raw equal_fold value ≡ refused e
          → process_event equal_fold cfg cancelled dlq_takes handler value
            ≡ dead_letter dlq_takes 0 (decode_failed e))
        × ((raw : RawEnvelope)
            → unmarshal_raw equal_fold value ≡ decoded raw
            → Ends "kafka: " cfg
                (handler (event_of raw))
                cancelled
                dlq_takes
                (process_event equal_fold cfg cancelled dlq_takes handler value))
  unfolding process_event
  process_event-Ends handler value = (
    λ e h. rw (process_event, h),
    λ raw h.
        let ends =
          process_handled-Ends "kafka: " cfg (handler (event_of raw)) cancelled dlq_takes in
        rw (process_event, h) ends,
  )

  -- A command is committed by the same rules as an event, and besides it is committed at once if
  -- nothing is registered for its name; without a name it goes to the dead letter topic.
  pub process_command-Ends :
      (handlers : String → Option (Command (Option Json) → ℕ → Outcome)) (value : Option Json)
      → ((e : DecodeError)
          → unmarshal_raw equal_fold value ≡ refused e
          → process_command equal_fold cfg cancelled dlq_takes handlers value
            ≡ dead_letter dlq_takes 0 (decode_failed e))
        × ((raw : RawEnvelope)
            → unmarshal_raw equal_fold value ≡ decoded raw
            → (is_empty raw.name ≡ true
                → process_command equal_fold cfg cancelled dlq_takes handlers value
                  ≡ dead_letter dlq_takes 0 (decode_failed missing_fields))
              × (is_empty raw.name ≡ false
                  → handlers raw.name ≡ none
                  → process_command equal_fold cfg cancelled dlq_takes handlers value
                    ≡ commits ∷ [])
              × ((handler : Command (Option Json) → ℕ → Outcome)
                  → is_empty raw.name ≡ false
                  → handlers raw.name ≡ some handler
                  → Ends "kafka: command " cfg
                      (handler (command_of raw))
                      cancelled
                      dlq_takes
                      (process_command equal_fold cfg cancelled dlq_takes handlers value)))
  unfolding process_command
  process_command-Ends handlers value = (
    λ e h. rw (process_command, h),
    λ raw h. (
      λ n. rw (process_command, h, n),
      λ n k. rw (process_command, h, n, k),
      λ handler n k.
          let ends =
            process_handled-Ends "kafka: command " cfg (handler (command_of raw)) cancelled
              dlq_takes in
          rw (process_command, h, n, k) ends,
    ),
  )
