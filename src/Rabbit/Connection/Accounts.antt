-- ===== src/Rabbit/Connection/Accounts.antt =====
-- internal/rabbit/connection.go: who is to close an open connection, at every step.
pub mod Steps
use reactive_commons_go.Base.{
  ℕ, ◌+◌, ◌-◌, ◌<◌, ◌≡◌, ◌⊎◌, refl, sym, subst, Bool, true, false, Option, none, some, arith,
}
use reactive_commons_go.Rabbit.Connection.{new_connection}
use reactive_commons_go.Rabbit.Connection.Shutdown.{IsShut, Reachable-IsShut}
use reactive_commons_go.Rabbit.Connection.Guard.{
  IsGuarded, Reachable-IsGuarded, guarding-newest, is_guarding, is_returned,
}
use reactive_commons_go.Rabbit.Connection.World.{
  Dialer, ready, dialing, dialed, stored, reported, returned, Phase, unborn, attaching, watching,
  backing_off, redialing, redialed, restored, kept, announced, ended, Closer, close_holds,
  cancel_holds, cancel_shut, finished, World, close_conn, set_phase, Step, dial_starts,
  dial_refused, dial_fails, dial_succeeds, dial_stores, dial_discards, dial_reports, dial_spawns,
  finds_none, attaches, ends_as_meant, loses, aborts, redials, redial_fails, redial_succeeds,
  restores, discards, keeps, announces, hands_over, dies, close_marks, close_reports, close_takes,
  close_shuts, cancel_marks, cancel_takes, cancel_shuts, cancel_reports, Reachable, starts,
  and_then,
}

abbrev pub dialed_of : Dialer → Option ℕ
dialed_of (dialed n) = some n
dialed_of ready = none
dialed_of dialing = none
dialed_of stored = none
dialed_of reported = none
dialed_of returned = none

abbrev pub redialed_of : Phase → Option ℕ
redialed_of (redialed n) = some n
redialed_of _ = none

abbrev pub restored_of : Phase → Option ℕ
restored_of (restored n) = some n
restored_of _ = none

abbrev pub is_reconnecting : Phase → Bool
is_reconnecting backing_off = true
is_reconnecting redialing = true
is_reconnecting (redialed _) = true
is_reconnecting _ = false

abbrev pub has_none : Dialer → Bool
has_none ready = true
has_none dialing = true
has_none (dialed _) = true
has_none _ = false

-- The stopping call has read `c.conn`, and the connection that it is going to close.
abbrev pub is_taken : Closer → Bool
is_taken (close_holds _) = true
is_taken (cancel_holds _) = true
is_taken cancel_shut = true
is_taken finished = true
is_taken _ = false

abbrev pub taken_of : Closer → Option ℕ
taken_of (close_holds o) = o
taken_of (cancel_holds o) = o
taken_of _ = none

-- Who is to close connection `n`; `g` is where the newest goroutine stands.
abbrev pub Holds : Option ℕ → Dialer → Closer → Phase → ℕ → Type 0
Holds conn dialer closer g n =
    (dialed_of dialer ≡ some n)
    ⊎ (redialed_of g ≡ some n)
    ⊎ (taken_of closer ≡ some n)
    ⊎ ((conn ≡ some n) × (is_taken closer ≡ false))
    ⊎ (restored_of g ≡ some n)

pub record IsAccounted (conn : Option ℕ) (live : ℕ → Bool) (dialled : ℕ) (dialer : Dialer)
    (closer : Closer) (g : Phase) : Type 0 where
  pub known : (m : ℕ) → conn ≡ some m → m < dialled
  pub dialed_known : (m : ℕ) → dialed_of dialer ≡ some m → m < dialled
  pub redialed_known : (m : ℕ) → redialed_of g ≡ some m → m < dialled
  pub empty : has_none dialer ≡ true → conn ≡ none
  pub lost : (m : ℕ) → is_reconnecting g ≡ true → conn ≡ some m → live m ≡ false
  pub watched : (n m : ℕ) → g ≡ watching n → conn ≡ some m → m ≡ n
  pub placed : (m : ℕ) → is_taken closer ≡ false → restored_of g ≡ some m → conn ≡ some m
  pub held : (n : ℕ) → live n ≡ true → Holds conn dialer closer g n

abbrev pub newest : World → Phase
newest w = w.phase (w.spawned - 1)

abbrev pub Accounted : World → Type 0
Accounted w = IsAccounted w.c.conn w.live w.dialled w.dialer w.closer (newest w)

-- A step that only the newest goroutine, here in phase `x`, can make.
pub newest-is :
    (w : World) (k : ℕ) (x : Phase)
    → IsGuarded w.c.is_stopped w.dialer w.spawned w.phase
    → w.phase k ≡ x
    → is_guarding x ≡ true
    → (k + 1 ≡ w.spawned) × (newest w ≡ x)
newest-is w k x h e g =
    let n = guarding-newest h k (ground (arith, e, g)) in (n, ground (arith, n, e))

pub first :
    (w : World)
    → IsGuarded w.c.is_stopped w.dialer w.spawned w.phase
    → is_returned w.dialer ≡ false
    → newest w ≡ unborn
first w g e = ground (arith, g.before e, g.young (w.spawned - 1))

pub shut-IsAccounted :
    (w : World) (o : Option ℕ) (closer : Closer)
    → (taken_of w.closer ≡ o) × (is_taken w.closer ≡ true)
    → taken_of closer ≡ none
    → is_taken closer ≡ true
    → Accounted w
    → IsAccounted w.c.conn (close_conn o w.live) w.dialled w.dialer closer (newest w)
shut-IsAccounted w none closer e f t h = record {
  known = λ m a. ground (arith, a, h.known m, e, f, t);
  dialed_known = λ m a. ground (arith, a, h.dialed_known m, e, f, t);
  redialed_known = λ m a. ground (arith, a, h.redialed_known m, e, f, t);
  empty = λ a. ground (arith, a, h.empty, e, f, t);
  lost = λ m a b. ground (arith, a, b, h.lost m, h.known m, e, f, t);
  watched = λ n m a b. ground (arith, a, b, h.watched n m, e, f, t);
  placed = λ m a b. ground (arith, a, b, h.placed m, e, f, t);
  held = λ n a. ground (arith, a, h.held n, e, f, t);
}
shut-IsAccounted w (some n) closer e f t h = record {
  known = λ m a. ground (arith, a, h.known m, e, f, t);
  dialed_known = λ m a. ground (arith, a, h.dialed_known m, e, f, t);
  redialed_known = λ m a. ground (arith, a, h.redialed_known m, e, f, t);
  empty = λ a. ground (arith, a, h.empty, e, f, t);
  lost = λ m a b. ground (arith, a, b, h.lost m, h.known m, e, f, t);
  watched = λ n m a b. ground (arith, a, b, h.watched n m, e, f, t);
  placed = λ m a b. ground (arith, a, b, h.placed m, e, f, t);
  held = λ n a. ground (arith, a, h.held n, e, f, t);
}

-- A step of the newest goroutine between phases that hold no connection.
pub moves-Accounted :
    (w : World) (x x' : Phase)
    → newest w ≡ x
    → (redialed_of x ≡ none) × (restored_of x ≡ none)
    → (redialed_of x' ≡ none) × (restored_of x' ≡ none)
    → (is_reconnecting x' ≡ true → is_reconnecting x ≡ true)
    → ((n m : ℕ) → x' ≡ watching n → w.c.conn ≡ some m → m ≡ n)
    → Accounted w
    → IsAccounted w.c.conn w.live w.dialled w.dialer w.closer x'
moves-Accounted w x x' e (a, b) (c, d) back sees h = record {
  known = h.known;
  dialed_known = h.dialed_known;
  redialed_known = λ m y. ground (arith, y, c);
  empty = h.empty;
  lost = λ m y z. ground (arith, y, z, e, h.lost m, back);
  watched = sees;
  placed = λ m y z. ground (arith, z, d);
  held = λ n y. ground (arith, y, e, a, b, h.held n);
}

-- A step of `Dial` between states that hold no connection.
pub dials-Accounted :
    (w : World) (d : Dialer)
    → (dialed_of w.dialer ≡ none) × (dialed_of d ≡ none)
    → (has_none d ≡ true → has_none w.dialer ≡ true)
    → Accounted w
    → IsAccounted w.c.conn w.live w.dialled d w.closer (newest w)
dials-Accounted w d (a, b) still h = record {
  known = h.known;
  dialed_known = λ m y. ground (arith, y, b);
  redialed_known = h.redialed_known;
  empty = λ y. h.empty (still y);
  lost = h.lost;
  watched = h.watched;
  placed = h.placed;
  held = λ n y. ground (arith, y, a, h.held n);
}

-- A step of the stopping call that neither takes nor closes a connection.
pub marks-Accounted :
    (w : World) (c : Closer)
    → (is_taken c ≡ is_taken w.closer) × (taken_of w.closer ≡ none)
    → Accounted w
    → IsAccounted w.c.conn w.live w.dialled w.dialer c (newest w)
marks-Accounted w c (a, b) h = record {
  known = h.known;
  dialed_known = h.dialed_known;
  redialed_known = h.redialed_known;
  empty = h.empty;
  lost = h.lost;
  watched = h.watched;
  placed = λ m y z. ground (arith, y, z, a, h.placed m);
  held = λ n y. ground (arith, y, a, b, h.held n);
}

-- The newest goroutine after its step.
pub newest-moves :
    (k : ℕ) (x : Phase) (spawned : ℕ) (phase : ℕ → Phase)
    → k + 1 ≡ spawned
    → set_phase k x phase (spawned - 1) ≡ x
newest-moves k x spawned phase e = ground (arith, e)
