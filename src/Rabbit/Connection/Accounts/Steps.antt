-- ===== src/Rabbit/Connection/Accounts/Steps.antt =====
-- internal/rabbit/connection.go: every step keeps the account of the open connections.
use reactive_commons_go.Base.{◌≡◌, refl, sym, subst, arith}
use reactive_commons_go.Rabbit.Connection.{new_connection}
use reactive_commons_go.Rabbit.Connection.Shutdown.{IsShut, Reachable-IsShut}
use reactive_commons_go.Rabbit.Connection.Guard.{IsGuarded, Reachable-IsGuarded}
use reactive_commons_go.Rabbit.Connection.World.{
  dialing, reported, returned, unborn, attaching, watching, backing_off, redialing, redialed,
  restored, kept, announced, ended, World, Step, dial_starts, dial_refused, dial_fails,
  dial_succeeds, dial_stores, dial_discards, dial_reports, dial_spawns, finds_none, attaches,
  ends_as_meant, loses, aborts, redials, redial_fails, redial_succeeds, restores, discards, keeps,
  announces, hands_over, dies, close_marks, close_reports, close_takes, close_shuts, cancel_marks,
  cancel_takes, cancel_shuts, cancel_reports, Reachable, starts, and_then,
}
use reactive_commons_go.Rabbit.Connection.Accounts.{
  IsAccounted, newest, Accounted, newest-is, first, shut-IsAccounted, moves-Accounted,
  dials-Accounted, marks-Accounted, newest-moves,
}

Step-Accounted :
    (w v : World)
    → Step w v
    → IsGuarded w.c.is_stopped w.dialer w.spawned w.phase
    → IsShut w.c w.closer
    → Accounted w
    → Accounted v
Step-Accounted _ _ (dial_starts w e f) g s h =
    dials-Accounted w dialing (ground (arith, e), refl) (λ y. ground (arith, e, y)) h
Step-Accounted _ _ (dial_refused w e f) g s h =
    dials-Accounted w returned (ground (arith, e), refl) (λ y. ground (arith, e, y)) h
Step-Accounted _ _ (dial_fails w err e) g s h =
    dials-Accounted w returned (ground (arith, e), refl) (λ y. ground (arith, e, y)) h
Step-Accounted _ _ (dial_succeeds w e) g s h =
    let z : newest w ≡ unborn = first w g (ground (arith, e)) in
    record {
      known = λ m a. ground (arith, a, h.known m, e, z);
      dialed_known = λ m a. ground (arith, a, h.dialed_known m, e, z);
      redialed_known = λ m a. ground (arith, a, h.redialed_known m, e, z);
      empty = λ a. ground (arith, a, h.empty, e, z);
      lost = λ m a b. ground (arith, a, b, h.lost m, h.known m, e, z);
      watched = λ n m a b. ground (arith, a, b, h.watched n m, e, z);
      placed = λ m a b. ground (arith, a, b, h.placed m, e, z);
      held = λ n a. ground (arith, a, h.held n, e, z);
    }
Step-Accounted _ _ (dial_stores w n e f) g s h =
    let z : newest w ≡ unborn = first w g (ground (arith, e)) in
    record {
      known = λ m a. ground (arith, a, h.known m, e, z, h.empty, h.dialed_known n, s.closes, f);
      dialed_known =
          λ m a. ground (arith, a, h.dialed_known m, e, z, h.empty, h.dialed_known n, s.closes, f);
      redialed_known = λ m a.
          ground (arith, a, h.redialed_known m, e, z, h.empty, h.dialed_known n, s.closes, f);
      empty = λ a. ground (arith, a, h.empty, e, z, h.empty, h.dialed_known n, s.closes, f);
      lost = λ m a b.
          ground (arith, a, b, h.lost m, h.known m, e, z, h.empty, h.dialed_known n, s.closes, f);
      watched = λ n m a b.
          ground (arith, a, b, h.watched n m, e, z, h.empty, h.dialed_known n, s.closes, f);
      placed =
          λ m a b. ground (arith, a, b, h.placed m, e, z, h.empty, h.dialed_known n, s.closes, f);
      held = λ n a. ground (arith, a, h.held n, e, z, h.empty, h.dialed_known n, s.closes, f);
    }
Step-Accounted _ _ (dial_discards w n e f) g s h =
    let z : newest w ≡ unborn = first w g (ground (arith, e)) in
    record {
      known = λ m a. ground (arith, a, h.known m, e, z);
      dialed_known = λ m a. ground (arith, a, h.dialed_known m, e, z);
      redialed_known = λ m a. ground (arith, a, h.redialed_known m, e, z);
      empty = λ a. ground (arith, a);
      lost = λ m a b. ground (arith, a, b, h.lost m, h.known m, e, z);
      watched = λ n m a b. ground (arith, a, b, h.watched n m, e, z);
      placed = λ m a b. ground (arith, a, b, h.placed m, e, z);
      held = λ n a. ground (arith, a, h.held n, e, z);
    }
Step-Accounted _ _ (dial_reports w e) g s h =
    dials-Accounted w reported (ground (arith, e), refl) (λ y. ground (arith, e, y)) h
Step-Accounted _ _ (dial_spawns w e) g s h =
    let z : newest w ≡ unborn = first w g (ground (arith, e)) in
    record {
      known = λ m a. ground (arith, a, h.known m, e, z, g.before);
      dialed_known = λ m a. ground (arith, a, h.dialed_known m, e, z, g.before);
      redialed_known = λ m a. ground (arith, a, h.redialed_known m, e, z, g.before);
      empty = λ a. ground (arith, a, h.empty, e, z, g.before);
      lost = λ m a b. ground (arith, a, b, h.lost m, h.known m, e, z, g.before);
      watched = λ n m a b. ground (arith, a, b, h.watched n m, e, z, g.before);
      placed = λ m a b. ground (arith, a, b, h.placed m, e, z, g.before);
      held = λ n a. ground (arith, a, h.held n, e, z, g.before);
    }
Step-Accounted _ _ (finds_none w k e f) g s h =
    let (n', here) = newest-is w k attaching g e refl in
    subst (IsAccounted w.c.conn w.live w.dialled w.dialer w.closer)
      (sym (newest-moves k ended w.spawned w.phase n'))
      (moves-Accounted w attaching ended here (refl, refl) (refl, refl) (λ y. ground (arith, y))
        (λ n m y. ground (arith, y)) h)
Step-Accounted _ _ (attaches w k n e f) g s h =
    let (n', here) = newest-is w k attaching g e refl in
    subst (IsAccounted w.c.conn w.live w.dialled w.dialer w.closer)
      (sym (newest-moves k (watching n) w.spawned w.phase n'))
      (moves-Accounted w attaching (watching n) here (refl, refl) (refl, refl)
        (λ y. ground (arith, y)) (λ j m y z. ground (arith, y, z, f)) h)
Step-Accounted _ _ (ends_as_meant w k n err e l i) g s h =
    let (n', here) = newest-is w k (watching n) g e refl in
    subst (IsAccounted w.c.conn w.live w.dialled w.dialer w.closer)
      (sym (newest-moves k ended w.spawned w.phase n'))
      (moves-Accounted w (watching n) ended here (refl, refl) (refl, refl) (λ y. ground (arith, y))
        (λ n m y. ground (arith, y)) h)
Step-Accounted _ _ (loses w k n err text e l i) g s h =
    let (n', x) = newest-is w k (watching n) g e refl in
    record {
      known = λ m a. h.known m a;
      dialed_known = λ m a. h.dialed_known m a;
      redialed_known = λ m a. ground (arith, a, e, n', x);
      empty = h.empty;
      lost = λ m a b. ground (arith, a, b, h.lost m, h.known m, e, n', x, l, h.watched n m);
      watched = λ n m a b. ground (arith, a, n');
      placed = λ m a b. ground (arith, b, n');
      held = λ j a. ground (arith, a, h.held j, e, n', x);
    }
Step-Accounted _ _ (aborts w k e f) g s h =
    let (n', here) = newest-is w k backing_off g e refl in
    subst (IsAccounted w.c.conn w.live w.dialled w.dialer w.closer)
      (sym (newest-moves k ended w.spawned w.phase n'))
      (moves-Accounted w backing_off ended here (refl, refl) (refl, refl) (λ y. ground (arith, y))
        (λ n m y. ground (arith, y)) h)
Step-Accounted _ _ (redials w k e f) g s h =
    let (n', here) = newest-is w k backing_off g e refl in
    subst (IsAccounted w.c.conn w.live w.dialled w.dialer w.closer)
      (sym (newest-moves k redialing w.spawned w.phase n'))
      (moves-Accounted w backing_off redialing here (refl, refl) (refl, refl) (λ _. refl)
        (λ n m y. ground (arith, y)) h)
Step-Accounted _ _ (redial_fails w k err e) g s h =
    let (n', here) = newest-is w k redialing g e refl in
    subst (IsAccounted w.c.conn w.live w.dialled w.dialer w.closer)
      (sym (newest-moves k backing_off w.spawned w.phase n'))
      (moves-Accounted w redialing backing_off here (refl, refl) (refl, refl) (λ _. refl)
        (λ n m y. ground (arith, y)) h)
Step-Accounted _ _ (redial_succeeds w k e) g s h =
    let (n', x) = newest-is w k redialing g e refl in
    record {
      known = λ m a. ground (arith, a, h.known m, e, n', x);
      dialed_known = λ m a. ground (arith, a, h.dialed_known m, e, n', x);
      redialed_known = λ m a. ground (arith, a, h.redialed_known m, e, n', x);
      empty = λ a. ground (arith, a, h.empty, e, n', x);
      lost = λ m a b. ground (arith, a, b, h.lost m, h.known m, e, n', x);
      watched = λ n m a b. ground (arith, a, b, h.watched n m, e, n', x);
      placed = λ m a b. ground (arith, a, b, h.placed m, e, n', x);
      held = λ n a. ground (arith, a, h.held n, e, n', x);
    }
Step-Accounted _ _ (restores w k n e) g s h =
    let (n', x) = newest-is w k (redialed n) g e refl in
    record {
      known = λ m a. ground (arith, a, h.known m, e, n', x, h.redialed_known n, h.lost n, g.before);
      dialed_known = λ m a.
          ground (arith, a, h.dialed_known m, e, n', x, h.redialed_known n, h.lost n, g.before);
      redialed_known = λ m a.
          ground (arith, a, h.redialed_known m, e, n', x, h.redialed_known n, h.lost n, g.before);
      empty = λ a. ground (arith, a, h.empty, e, n', x, h.redialed_known n, h.lost n, g.before);
      lost = λ m a b.
          ground
            (arith, a, b, h.lost m, h.known m, e, n', x, h.redialed_known n, h.lost n, g.before);
      watched = λ n m a b.
          ground (arith, a, b, h.watched n m, e, n', x, h.redialed_known n, h.lost n, g.before);
      placed = λ m a b.
          ground (arith, a, b, h.placed m, e, n', x, h.redialed_known n, h.lost n, g.before);
      held = λ m a. ground (arith, a, h.held m, h.lost m, h.empty, e, n', x);
    }
Step-Accounted _ _ (discards w k n e f) g s h =
    let (n', x) = newest-is w k (restored n) g e refl in
    record {
      known = λ m a. ground (arith, a, h.known m, e, n', x);
      dialed_known = λ m a. ground (arith, a, h.dialed_known m, e, n', x);
      redialed_known = λ m a. ground (arith, a, h.redialed_known m, e, n', x);
      empty = λ a. ground (arith, a, h.empty, e, n', x);
      lost = λ m a b. ground (arith, a, b, h.lost m, h.known m, e, n', x);
      watched = λ n m a b. ground (arith, a, b, h.watched n m, e, n', x);
      placed = λ m a b. ground (arith, a, b, h.placed m, e, n', x);
      held = λ n a. ground (arith, a, h.held n, e, n', x);
    }
Step-Accounted _ _ (keeps w k n e f) g s h =
    let (n', x) = newest-is w k (restored n) g e refl in
    record {
      known = λ m a. ground (arith, a, h.known m, e, n', x, s.closes, f, h.placed n);
      dialed_known = λ m a. ground (arith, a, h.dialed_known m, e, n', x, s.closes, f, h.placed n);
      redialed_known =
          λ m a. ground (arith, a, h.redialed_known m, e, n', x, s.closes, f, h.placed n);
      empty = λ a. ground (arith, a, h.empty, e, n', x, s.closes, f, h.placed n);
      lost = λ m a b. ground (arith, a, b, h.lost m, h.known m, e, n', x, s.closes, f, h.placed n);
      watched = λ n m a b. ground (arith, a, b, h.watched n m, e, n', x, s.closes, f, h.placed n);
      placed = λ m a b. ground (arith, a, b, h.placed m, e, n', x, s.closes, f, h.placed n);
      held = λ n a. ground (arith, a, h.held n, e, n', x, s.closes, f, h.placed n);
    }
Step-Accounted _ _ (announces w k e) g s h =
    let (n', here) = newest-is w k kept g e refl in
    subst (IsAccounted w.c.conn w.live w.dialled w.dialer w.closer)
      (sym (newest-moves k announced w.spawned w.phase n'))
      (moves-Accounted w kept announced here (refl, refl) (refl, refl) (λ y. ground (arith, y))
        (λ n m y. ground (arith, y)) h)
Step-Accounted _ _ (hands_over w k e) g s h =
    let (n', x) = newest-is w k announced g e refl in
    record {
      known = λ m a. ground (arith, a, h.known m, e, n', x);
      dialed_known = λ m a. ground (arith, a, h.dialed_known m, e, n', x);
      redialed_known = λ m a. ground (arith, a, h.redialed_known m, e, n', x);
      empty = λ a. ground (arith, a, h.empty, e, n', x);
      lost = λ m a b. ground (arith, a, b, h.lost m, h.known m, e, n', x);
      watched = λ n m a b. ground (arith, a, b, h.watched n m, e, n', x);
      placed = λ m a b. ground (arith, a, b, h.placed m, e, n', x);
      held = λ n a. ground (arith, a, h.held n, e, n', x);
    }
Step-Accounted _ _ (dies w n) g s h = record {
  known = λ m a. ground (arith, a, h.known m);
  dialed_known = λ m a. ground (arith, a, h.dialed_known m);
  redialed_known = λ m a. ground (arith, a, h.redialed_known m);
  empty = λ a. ground (arith, a, h.empty);
  lost = λ m a b. ground (arith, a, b, h.lost m, h.known m);
  watched = λ n m a b. ground (arith, a, b, h.watched n m);
  placed = λ m a b. ground (arith, a, b, h.placed m);
  held = λ n a. ground (arith, a, h.held n);
}
Step-Accounted _ _ (close_marks w e) g s h =
    marks-Accounted w _ (ground (arith, e), ground (arith, e)) h
Step-Accounted _ _ (close_reports w e) g s h =
    marks-Accounted w _ (ground (arith, e), ground (arith, e)) h
Step-Accounted _ _ (cancel_marks w e) g s h =
    marks-Accounted w _ (ground (arith, e), ground (arith, e)) h
Step-Accounted _ _ (close_takes w e) g s h = record {
  known = λ m a. ground (arith, a, h.known m, e);
  dialed_known = λ m a. ground (arith, a, h.dialed_known m, e);
  redialed_known = λ m a. ground (arith, a, h.redialed_known m, e);
  empty = λ a. ground (arith, a, h.empty, e);
  lost = λ m a b. ground (arith, a, b, h.lost m, h.known m, e);
  watched = λ n m a b. ground (arith, a, b, h.watched n m, e);
  placed = λ m a b. ground (arith, a, b, h.placed m, e);
  held = λ n a. ground (arith, a, h.held n, e);
}
Step-Accounted _ _ (cancel_takes w e) g s h = record {
  known = λ m a. ground (arith, a, h.known m, e);
  dialed_known = λ m a. ground (arith, a, h.dialed_known m, e);
  redialed_known = λ m a. ground (arith, a, h.redialed_known m, e);
  empty = λ a. ground (arith, a, h.empty, e);
  lost = λ m a b. ground (arith, a, b, h.lost m, h.known m, e);
  watched = λ n m a b. ground (arith, a, b, h.watched n m, e);
  placed = λ m a b. ground (arith, a, b, h.placed m, e);
  held = λ n a. ground (arith, a, h.held n, e);
}
Step-Accounted _ _ (close_shuts w o e) g s h =
    shut-IsAccounted w o _ (ground (arith, e)) refl refl h
Step-Accounted _ _ (cancel_shuts w o e) g s h =
    shut-IsAccounted w o _ (ground (arith, e)) refl refl h
Step-Accounted _ _ (cancel_reports w err e) g s h =
    marks-Accounted w _ (ground (arith, e), ground (arith, e)) h

pub Reachable-Accounted : (w : World) → Reachable w → Accounted w
unfolding new_connection
Reachable-Accounted _ starts = record {
  known = λ m a. ground (arith, a);
  dialed_known = λ m a. ground (arith, a);
  redialed_known = λ m a. ground (arith, a);
  empty = λ _. refl;
  lost = λ m a b. ground (arith, b);
  watched = λ n m a b. ground (arith, b);
  placed = λ m a b. ground (arith, b);
  held = λ n a. ground (arith, a);
}
Reachable-Accounted _ (and_then w v r s) =
    Step-Accounted w v s (Reachable-IsGuarded w r).0 (Reachable-IsShut w r)
      (Reachable-Accounted w r)
