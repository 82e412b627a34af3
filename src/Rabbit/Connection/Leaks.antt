-- ===== src/Rabbit/Connection/Leaks.antt =====
-- internal/rabbit/connection.go: no connection is left open.
use reactive_commons_go.Base.{ℕ, ◌≡◌, ◌⊎◌, true, some, arith}
use reactive_commons_go.Rabbit.Connection.Guard.{Reachable-IsGuarded}
use reactive_commons_go.Rabbit.Connection.World.{watching, serving, finished, World, Reachable}
use reactive_commons_go.Rabbit.Connection.Accounts.{
  dialed_of, redialed_of, restored_of, newest, first,
}
use reactive_commons_go.Rabbit.Connection.Accounts.Steps.{Reachable-Accounted}

-- Stopping leaks no connection: once `Close`, or the end of the context in `DialContext`, is over, the
-- only connection that can still be open is one that a dial has just brought and whose goroutine has
-- the test of `stopped` still before it: that of `Dial`, or the newest of `reconnectLoop`.
pub close_leaks_none :
    (w : World) (n : ℕ)
    → Reachable w
    → w.closer ≡ finished
    → w.live n ≡ true
    → (dialed_of w.dialer ≡ some n)
      ⊎ (redialed_of (newest w) ≡ some n)
      ⊎ (restored_of (newest w) ≡ some n)
close_leaks_none w n r f l = let h = Reachable-Accounted w r in ground (arith, f, h.held n l)

-- The goroutine that watches a connection watches the one in use, if there is one; and until the
-- connection is stopped no other connection is open meanwhile.
pub watcher_sees_conn :
    (w : World) (n m : ℕ)
    → Reachable w
    → newest w ≡ watching n
    → (w.c.conn ≡ some m → m ≡ n) × (w.closer ≡ serving → w.live m ≡ true → m ≡ n)
watcher_sees_conn w n m r e =
    let h = Reachable-Accounted w r in
    let g = (Reachable-IsGuarded w r).0 in
    (h.watched n m e, λ s l. ground (arith, e, s, h.held m l, h.watched n m, g.before, first w g))
