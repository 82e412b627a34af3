-- ===== src/Rabbit/Connection/Samples.antt =====
-- Runs of internal/rabbit/connection.go: a dial whose connection is watched, and one that a `Close`
-- overtakes.
use reactive_commons_go.Base.{ℕ, ◌≡◌, ◌≢◌, ◌⊎◌, refl, true, false, none, some}
use reactive_commons_go.Rabbit.Connection.{connected, stopped, is_open, new_connection}
use reactive_commons_go.Rabbit.Connection.World.{
  dialing, dialed, stored, reported, returned, attaching, watching, close_marked, close_reported,
  close_holds, finished, serving, World, set_phase, set_live, with_health, dial_starts,
  dial_succeeds, dial_stores, dial_reports, dial_spawns, attaches, close_marks, close_reports,
  close_takes, close_shuts, Reachable, starts, and_then, new_world,
}
use reactive_commons_go.Rabbit.Connection.Guard.{is_guarding, one_watcher}
use reactive_commons_go.Rabbit.Connection.Shutdown.{finished_is_stopped}
use reactive_commons_go.Rabbit.Connection.Accounts.{dialed_of, redialed_of, restored_of, newest}
use reactive_commons_go.Rabbit.Connection.Leaks.{close_leaks_none, watcher_sees_conn}

abbrev w1 : World
w1 = record new_world { dialer = dialing }

abbrev w2 : World
w2 = record w1 { live = set_live 0 true w1.live; dialled = 1; dialer = dialed 0 }

abbrev w3 : World
w3 = record w2 { c = record w2.c { conn = some 0 }; dialer = stored }

abbrev w4 : World
w4 = record w3 { c = with_health w3.c connected none; dialer = reported }

abbrev w5 : World
w5 = record w4 { dialer = returned; phase = set_phase 0 attaching w4.phase; spawned = 1 }

abbrev w6 : World
w6 = record w5 { phase = set_phase 0 (watching 0) w5.phase }

abbrev v3 : World
v3 = record w2 { c = record w2.c { is_stopped = true }; closer = close_marked }

abbrev v4 : World
v4 = record v3 { c = with_health v3.c stopped none; closer = close_reported }

abbrev v5 : World
v5 = record v4 { closer = close_holds none }

abbrev v6 : World
v6 = record v5 { closer = finished }

reached_w1 : Reachable w1
unfolding new_connection
reached_w1 = and_then new_world w1 starts (dial_starts new_world refl refl)

reached_w2 : Reachable w2
unfolding new_connection
reached_w2 = and_then w1 w2 reached_w1 (dial_succeeds w1 refl)

reached_w3 : Reachable w3
unfolding new_connection
reached_w3 = and_then w2 w3 reached_w2 (dial_stores w2 0 refl refl)

reached_w4 : Reachable w4
unfolding new_connection
reached_w4 = and_then w3 w4 reached_w3 (dial_reports w3 refl)

reached_w5 : Reachable w5
unfolding new_connection
reached_w5 = and_then w4 w5 reached_w4 (dial_spawns w4 refl)

reached_w6 : Reachable w6
unfolding new_connection
reached_w6 = and_then w5 w6 reached_w5 (attaches w5 0 0 refl refl)

reached_v3 : Reachable v3
unfolding new_connection
reached_v3 = and_then w2 v3 reached_w2 (close_marks w2 refl)

reached_v4 : Reachable v4
unfolding new_connection
reached_v4 = and_then v3 v4 reached_v3 (close_reports v3 refl)

reached_v5 : Reachable v5
unfolding new_connection
reached_v5 = and_then v4 v5 reached_v4 (close_takes v4 refl)

reached_v6 : Reachable v6
unfolding new_connection
reached_v6 = and_then v5 v6 reached_v5 (close_shuts v5 none refl)

one_watcher_example :
    (w6.c.is_stopped ≡ false → w6.spawned ≢ 0 → (k : ℕ) × (is_guarding (w6.phase k) ≡ true))
    × ((k l : ℕ) → is_guarding (w6.phase k) ≡ true → is_guarding (w6.phase l) ≡ true → k ≡ l)
one_watcher_example = one_watcher w6 reached_w6

watcher_sees_conn_example :
    (w6.c.conn ≡ some 0 → ◌≡◌ {A = ℕ} 0 0)
    × (w6.closer ≡ serving → w6.live 0 ≡ true → ◌≡◌ {A = ℕ} 0 0)
unfolding new_connection
watcher_sees_conn_example = watcher_sees_conn w6 0 0 reached_w6 refl

close_leaks_none_example :
    (dialed_of v6.dialer ≡ some 0)
    ⊎ (redialed_of (newest v6) ≡ some 0)
    ⊎ (restored_of (newest v6) ≡ some 0)
unfolding new_connection
close_leaks_none_example = close_leaks_none v6 0 reached_v6 refl refl

finished_is_stopped_example :
    (v6.closer ≡ finished → (v6.c.health.state ≡ stopped) × (is_open v6.live v6.c ≡ false))
    × (v6.closer ≡ serving → v6.c.health.state ≢ stopped)
finished_is_stopped_example = finished_is_stopped v6 reached_v6
