-- ===== src/Rabbit/Consumer/Supersession.antt =====
-- internal/rabbit/consumer.go: a call of `start` opens its channel only after the calls before it have
-- ended.
use reactive_commons_go.Base.{
  ℕ, ◌+◌, ◌<◌, ◌≤◌, ◌≡◌, ◌≢◌, refl, sym, subst, Bool, true, false, Option, none, some, arith,
  String, ℕ_discrete,
}
use reactive_commons_go.Rabbit.Consumer.{
  ConsumerState, stopped, SupervisedConsumer, set_health_for_gen, begin_start, leave,
}
use reactive_commons_go.Rabbit.Consumer.World.{
  Phase, unborn, waiting, opened, checked, consuming, reopened, rechecked, exited, failed, World,
  set_phase, gen_of,
}

-- The wait is over, and the call has not failed.
abbrev pub is_past : Phase → Bool
is_past unborn = false
is_past (waiting _) = false
is_past failed = false
is_past _ = true

abbrev pub is_ended : Phase → Bool
is_ended exited = true
is_ended failed = true
is_ended _ = false

-- A channel of the call may be open, with a consumer on the queue.
abbrev pub holds_channel : Phase → Bool
holds_channel opened = true
holds_channel checked = true
holds_channel consuming = true
holds_channel reopened = true
holds_channel rechecked = true
holds_channel _ = false

abbrev pub Follows : Option ℕ → ℕ → Type 0
Follows none n = n ≡ 0
Follows (some q) n = q + 1 ≡ n

pub record IsExclusive (c : SupervisedConsumer) (phase : ℕ → Phase) (late : Bool) : Type 0 where
  pub ahead : (n : ℕ) → c.fresh ≤ n → phase n ≡ unborn
  pub latest : Follows c.current c.fresh
  pub waits : (n : ℕ) (p : Option ℕ) → phase n ≡ waiting p → Follows p n
  pub done : (n : ℕ) → c.done_closed n ≡ true → phase n ≡ exited
  pub alone :
      late ≡ false → (n m : ℕ) → is_past (phase n) ≡ true → m < n → is_ended (phase m) ≡ true

-- Only the health may differ.
pub same-IsExclusive :
    {late : Bool} (c d : SupervisedConsumer) (phase : ℕ → Phase)
    → d.fresh ≡ c.fresh
    → d.current ≡ c.current
    → d.done_closed ≡ c.done_closed
    → IsExclusive c phase late
    → IsExclusive d phase late
same-IsExclusive c d phase f e k h = record {
  ahead = λ n b. h.ahead n (ground (arith, f, b));
  latest =
      subst (λ x. Follows d.current x) (sym f) (subst (λ x. Follows x c.fresh) (sym e) h.latest);
  waits = h.waits;
  done = λ n g. h.done n (subst (λ x. x n ≡ true) k g);
  alone = h.alone;
}

-- A call goes on from a phase that has not ended to one that does not wait.
pub move-IsExclusive :
    {late : Bool} (c : SupervisedConsumer) (phase : ℕ → Phase) (n : ℕ) (p : Phase)
    → is_ended (phase n) ≡ false
    → phase n ≢ unborn
    → ((q : Option ℕ) → p ≢ waiting q)
    → (late ≡ false → is_past p ≡ true → (m : ℕ) → m < n → is_ended (phase m) ≡ true)
    → IsExclusive c phase late
    → IsExclusive c (set_phase n p phase) late
move-IsExclusive {late = late} c phase n p going born no_wait past h = record {
  ahead = λ m b. ground (arith, h.ahead m b, h.ahead n, born);
  latest = h.latest;
  waits = λ m q e. ground (arith, h.waits m q, e, no_wait q);
  done = λ m g. ground (arith, h.done m g, going);
  alone = λ o m k e b. elim (ℕ_discrete n m) [
    | yes f ↦ ground (arith, e, b, f, past o, past_of o f e k b)
    | no f ↦ ground (arith, e, b, f, h.alone o m k, h.alone o m n, going)
  ];
}
  where
    past_of :
        {m : ℕ}
        → late ≡ false
        → n ≡ m
        → is_past (set_phase n p phase m) ≡ true
        → (k : ℕ) → k < m
        → is_ended (phase k) ≡ true
    past_of o f e k b = past o (ground (arith, f, e)) k (ground (arith, f, b))

waiting_injective : (p q : Option ℕ) → waiting p ≡ waiting q → p ≡ q
waiting_injective p q e = ground (arith, e)

-- The same with another health.
advance :
    {late : Bool} (c d : SupervisedConsumer) (phase : ℕ → Phase) (n : ℕ) (p : Phase)
    → d.fresh ≡ c.fresh
    → d.current ≡ c.current
    → d.done_closed ≡ c.done_closed
    → is_ended (phase n) ≡ false
    → phase n ≢ unborn
    → ((q : Option ℕ) → p ≢ waiting q)
    → (is_past p ≡ true → is_past (phase n) ≡ true)
    → IsExclusive c phase late
    → IsExclusive d (set_phase n p phase) late
advance c d phase n p f e k going born no_wait past h =
    same-IsExclusive c d (set_phase n p phase) f e k
      (move-IsExclusive c phase n p going born no_wait (λ o g m b. h.alone o n m (past g) b) h)

pub kept :
    (gen : ℕ) (s : ConsumerState) (err : Option String) (c : SupervisedConsumer)
    → ((set_health_for_gen gen s err c).fresh ≡ c.fresh)
      × ((set_health_for_gen gen s err c).current ≡ c.current)
      × ((set_health_for_gen gen s err c).done_closed ≡ c.done_closed)
unfolding set_health_for_gen
kept gen s err c = (ground arith, ground arith, ground arith)

pub begin-IsExclusive :
    {late : Bool} (c : SupervisedConsumer) (phase : ℕ → Phase)
    → IsExclusive c phase late
    → IsExclusive
        (begin_start c).0
        (set_phase (begin_start c).1.pair (waiting (begin_start c).1.prev) phase)
        late
unfolding begin_start
begin-IsExclusive c phase h = record {
  ahead = λ m b. ground (arith, h.ahead m, b);
  latest = refl;
  waits = λ m q e. elim (ℕ_discrete c.fresh m) [
    | yes f ↦
        subst (λ x. Follows q x) f
          (subst (λ x. Follows x c.fresh) (waiting_injective c.current q (ground (arith, e, f)))
            h.latest)
    | no f ↦ h.waits m q (ground (arith, e, f))
  ];
  done = λ m g. ground (arith, h.done m g, h.ahead m);
  alone = λ o m k e b. ground (arith, e, b, h.alone o m k, h.ahead m);
}

pub leave-IsExclusive :
    {late : Bool} (n gen : ℕ) (err : Option String) (c : SupervisedConsumer) (phase : ℕ → Phase)
    → is_ended (phase n) ≡ false
    → is_past (phase n) ≡ true
    → IsExclusive c phase late
    → IsExclusive (leave n gen err c) (set_phase n exited phase) late
unfolding leave
leave-IsExclusive {late = late} n gen err c phase going past h = record {
  ahead = moved.ahead;
  latest = moved.latest;
  waits = moved.waits;
  done = λ m g. ground (arith, g, moved.done m);
  alone = moved.alone;
}
  where
    moved : IsExclusive (set_health_for_gen gen stopped err c) (set_phase n exited phase) late
    moved =
        advance c (set_health_for_gen gen stopped err c) phase n exited (kept gen stopped err c).0
          (kept gen stopped err c).1 (kept gen stopped err c).2 going (λ e. ground (arith, e, past))
          (λ q e. ground (arith, e)) (λ _. past) h

pub with_health :
    (w : World) (n : ℕ) (p : Phase) (s : ConsumerState) (err : Option String)
    → is_ended (w.phase n) ≡ false
    → w.phase n ≢ unborn
    → ((q : Option ℕ) → p ≢ waiting q)
    → (is_past p ≡ true → is_past (w.phase n) ≡ true)
    → IsExclusive w.consumer w.phase w.outlasted
    → IsExclusive
        (set_health_for_gen (gen_of n) s err w.consumer)
        (set_phase n p w.phase)
        w.outlasted
with_health w n p s err =
    let k = kept (gen_of n) s err w.consumer in
    advance w.consumer (set_health_for_gen (gen_of n) s err w.consumer) w.phase n p k.0 k.1 k.2

-- Once the superseded supervisor is done, every earlier call has ended.
pub waited :
    (w : World) (n : ℕ) (p : Option ℕ)
    → IsExclusive w.consumer w.phase w.outlasted
    → w.phase n ≡ waiting p
    → ((q : ℕ) → p ≡ some q → w.consumer.done_closed q ≡ true)
    → w.outlasted ≡ false
    → (m : ℕ) → m < n
    → is_ended (w.phase m) ≡ true
waited w n none h e d o m b = absurd (ground (arith, h.waits n none e, b))
waited w n (some q) h e d o m b =
    let left = h.done q (d q refl) in ground (arith, h.waits n (some q) e, left, h.alone o q m, b)

pub loosen :
    {late : Bool} (c : SupervisedConsumer) (phase : ℕ → Phase)
    → IsExclusive c phase late
    → IsExclusive c phase true
loosen c phase h = record {
  ahead = h.ahead;
  latest = h.latest;
  waits = h.waits;
  done = h.done;
  alone = λ o m k e b. absurd (ground (arith, o));
}
