-- ===== src/Metrics/Examples.antt =====
-- Witnesses and runs of the registry.
use redis_watcher.Base.{Bool, true, false, not, ◌&&◌, none, List, [], ◌∷◌, ◌≡◌, ◌↔◌, refl}
use redis_watcher.Base.Bytes.{Bytes, codes, eq_bytes}
use redis_watcher.Go.Int.{pos}
use redis_watcher.Metrics.{
  Registry, new_registry, set_redis_role, set_monitor_connected, set_output_failing,
  gauge_output_failing, keep_output_failing, contains, mark, add_name, delete_name, ready,
  readyz_status,
}
use redis_watcher.Base.Tests.{◌==◌}
use redis_watcher.Event.{Event}
use redis_watcher.Metrics.Gauges.{is_one}
use redis_watcher.Metrics.Halves.{
  Half, gauged, kept, parts, calls_of, after_halves, apply_half, after_halves-calls_of,
}
use redis_watcher.Metrics.Methods.{role_probe}
use redis_watcher.Metrics.Registered.{taken}
use redis_watcher.Metrics.Server.{readyz, new_server}
use redis_watcher.Metrics.Totals.{Totals, after_calls-Totals}
use redis_watcher.Metrics.Vectors.{Vector, shown}
use redis_watcher.Metrics.Ready.{
  recorded, counted, Call, role, connected, output_failing, after_calls, apply, latest, connection,
  role_test, output_test, channel_test, readyz_status_iff,
}

abbrev begun : Registry
begun = new_registry [] true (codes "1.2.0") (codes "abc") (pos 1700000000)

-- The latest call first: a file output that failed has recovered.
abbrev calls : List Call
calls =
    output_failing (codes "file") false
    ∷ role (codes "replica")
    ∷ output_failing (codes "file") true
    ∷ connected true
    ∷ []

readyz_status_iff_example : (readyz_status (after_calls begun calls) ≡ 200) ↔ (
    (latest connection calls ≡ true)
    × (latest role_test calls ≡ true)
    × ((k : Bytes) → latest (output_test k) calls ≡ false)
    × ((k : Bytes) → latest (channel_test k) calls ≡ false))
readyz_status_iff_example =
    readyz_status_iff [] true (codes "1.2.0") (codes "abc") (pos 1700000000) calls

calls-ready : readyz_status (after_calls begun calls) ≡ 200
unfolding readyz_status ready after_calls apply new_registry set_redis_role set_monitor_connected
    set_output_failing mark add_name delete_name eq_bytes
calls-ready = refl

-- Two outputs of one name: the first fails and stays so, the second fails and recovers, and the
-- probe says that all is well.
abbrev two_files : List Call
two_files =
    output_failing (codes "file") false
    ∷ output_failing (codes "file") true
    ∷ output_failing (codes "file") true
    ∷ role (codes "master")
    ∷ connected true
    ∷ []

two_files-ready : readyz_status (after_calls begun two_files) ≡ 200
unfolding readyz_status ready after_calls apply new_registry set_redis_role set_monitor_connected
    set_output_failing mark add_name delete_name eq_bytes
two_files-ready = refl

-- Two recorded events, one of an ignored command, and a failed probe.
abbrev ev : Bytes → Event
ev name = record {
  timestamp = record { sec = pos 7; nsec = 0 };
  db = pos 0;
  source = record { ip = codes "::1"; port = codes "5" };
  command = name;
  subcommand = [];
  args = [];
}

abbrev busy : List Call
busy =
    counted (role_probe (pos 8) false (pos 3))
    ∷ recorded (ev (codes "PING"))
    ∷ recorded (ev (codes "GET"))
    ∷ calls

abbrev fresh : Registry
fresh = new_registry (codes "PING" ∷ []) true (codes "1.2.0") (codes "abc") (pos 1700000000)

abbrev tcp : Bytes
tcp = codes "tcp"

-- A call for another output comes between the two steps of one.
abbrev between : List Half
between = kept tcp true ∷ gauged (codes "udp") true ∷ gauged tcp true ∷ []

between-parts : parts tcp between ≡ calls_of (true ∷ [])
unfolding eq_bytes
between-parts = refl

after_halves-calls_of_example :
    let r = after_halves fresh between in
    (is_one (shown Vector.monitor_connected [] r.ops) ≡ r.monitor_connected)
    × (is_one (shown Vector.output_failing (tcp ∷ []) r.ops) ≡ contains r.failing_outputs tcp)
    × ((c : Bytes)
        → is_one (shown Vector.alert_channel_failing (c ∷ []) r.ops)
          ≡ contains r.failing_alert_channels c)
after_halves-calls_of_example =
    after_halves-calls_of (codes "PING" ∷ []) true (codes "1.2.0") (codes "abc") (pos 1700000000)
      between tcp (true ∷ []) between-parts

-- Two outputs with one name: the gauge of the name shows 0, and its set holds it.
abbrev raced : Registry
raced =
    after_halves fresh (kept tcp true ∷ kept tcp false ∷ gauged tcp false ∷ gauged tcp true ∷ [])

raced-apart :
    (is_one (shown Vector.output_failing (tcp ∷ []) raced.ops) ≡ false)
    × (contains raced.failing_outputs tcp ≡ true)
unfolding after_halves apply_half gauge_output_failing keep_output_failing mark add_name delete_name
    shown eq_bytes new_registry
raced-apart = (refl, refl)

after_calls-Totals_example : Totals (codes "PING" ∷ []) (after_calls fresh busy) busy
after_calls-Totals_example =
    after_calls-Totals (codes "PING" ∷ []) true (codes "1.2.0") (codes "abc") (pos 1700000000) busy

-- A mux that takes every pattern once, where it begins with a slash.
abbrev slashed : Bytes → Bool
slashed [] = false
slashed (c ∷ _) = c == b'/'

abbrev mux : List Bytes → Bytes → Bool
mux seen p = slashed p && not (taken seen p)

-- The path that /readyz is served on is refused.
new_server-readyz : new_server mux readyz ≡ none
unfolding new_server eq_bytes
new_server-readyz = refl
