-- ===== src/Metrics.antt =====
-- internal/metrics: the registry (metrics.go) and the readiness probe (server.go). The Prometheus
-- vectors are a library's: the registry keeps the calls that it makes of them, the latest first.
pub mod Vectors
pub mod Registered
pub mod Queues
pub mod Server
pub mod Methods
pub mod Ready
pub mod Gauges
pub mod Halves
pub mod Totals
mod Examples
use redis_watcher.Base.{ℕ, Bool, true, false, not, ◌&&◌, ◌||◌, List, [], ◌∷◌, ◌++◌}
use redis_watcher.Base.Bytes.{Bytes, codes, is_empty, eq_bytes}
use redis_watcher.Base.Lists.{any}
use redis_watcher.Base.Tests.{if◌then◌else◌}
use redis_watcher.Event.{Event}
use redis_watcher.Go.Int.{ℤ, pos, itoa_ℤ}
use redis_watcher.Metrics.Vectors.{Vector, Op, inc, reset}

pub record Registry : Type 0 where
  pub ignored : List Bytes
  pub track_source_ip : Bool
  pub ops : List Op
  pub monitor_connected : Bool
  pub role_known : Bool
  pub failing_outputs : List Bytes
  pub failing_alert_channels : List Bytes

-- `New`, the two build metrics set at the time now; the registration is in Registered.
unfoldable pub new_registry : List Bytes → Bool → Bytes → Bytes → ℤ → Registry
new_registry ignored_commands track version commit now = record {
  ignored = ignored_commands;
  track_source_ip = track;
  ops =
      Op.set Vector.start_time_seconds [] now
      ∷ Op.set Vector.build_info (version ∷ commit ∷ []) (pos 1)
      ∷ [];
  monitor_connected = false;
  role_known = false;
  failing_outputs = [];
  failing_alert_channels = [];
}

-- Calls of vectors, the first of them at the end.
abbrev pub tell : List Op → Registry → Registry
tell os r = record r { ops = os ++ r.ops }

abbrev pub contains : List Bytes → Bytes → Bool
contains set s = any (eq_bytes s) set

-- The calls of `Record`. A counter of float64 is not bounded by a word.
unfoldable pub record_ops : Event → Registry → List Op
record_ops ev r =
    if contains r.ignored ev.command
    then inc Vector.events_processed [] ∷ []
    else let db = itoa_ℤ ev.db in
      let counted =
        inc Vector.commands_by_db_total (db ∷ [])
        ∷ inc Vector.commands_total (ev.command ∷ db ∷ [])
        ∷ inc Vector.events_processed []
        ∷ [] in
      if r.track_source_ip && not (is_empty ev.source.ip)
      then inc Vector.commands_by_ip_total (ev.command ∷ ev.source.ip ∷ []) ∷ counted
      else counted

unfoldable pub record_event : Event → Registry → Registry
unfolding record_ops
record_event ev r = tell (record_ops ev r) r

abbrev pub is_known : Bytes → Bool
is_known name = not (is_empty name) && not (eq_bytes name (codes "unknown"))

-- The value of a gauge that shows a Boolean.
abbrev pub one_if : Bool → ℤ
one_if b = if b then pos 1 else pos 0

unfoldable pub set_redis_role : Bytes → Registry → Registry
set_redis_role name r =
    let told =
      tell
        (Op.set Vector.redis_is_master [] (one_if (eq_bytes name (codes "master")))
          ∷ Op.set Vector.redis_role_info (name ∷ []) (pos 1)
          ∷ reset Vector.redis_role_info
          ∷ [])
        r in
    record told { role_known = is_known name }

unfoldable pub set_monitor_connected : Bool → Registry → Registry
set_monitor_connected connected r =
    let told = tell (Op.set Vector.monitor_connected [] (one_if connected) ∷ []) r in
    record told { monitor_connected = connected }

-- The two operations on a set of names.
unfoldable pub add_name : Bytes → List Bytes → List Bytes
add_name name set = if contains set name then set else name ∷ set

unfoldable pub delete_name : Bytes → List Bytes → List Bytes
delete_name name [] = []
delete_name name (n ∷ set) =
    if eq_bytes name n then delete_name name set else n ∷ delete_name name set

unfoldable pub mark : Bytes → Bool → List Bytes → List Bytes
unfolding add_name delete_name
mark name failing set = if failing then add_name name set else delete_name name set

-- The two steps of `SetOutputFailing`: the gauge is set outside of the lock, and the set of names
-- under it, so that calls of two consumers can take them in turns.
unfoldable pub gauge_output_failing : Bytes → Bool → Registry → Registry
gauge_output_failing name failing r =
    tell (Op.set Vector.output_failing (name ∷ []) (one_if failing) ∷ []) r

unfoldable pub keep_output_failing : Bytes → Bool → Registry → Registry
unfolding mark
keep_output_failing name failing r = record r {
  failing_outputs = mark name failing r.failing_outputs;
}

-- `SetOutputFailing` without another call between its steps. The readiness probe reads only what is
-- behind the lock.
unfoldable pub set_output_failing : Bytes → Bool → Registry → Registry
unfolding gauge_output_failing keep_output_failing mark
set_output_failing name failing r =
    keep_output_failing name failing (gauge_output_failing name failing r)

unfoldable pub set_alert_channel_failing : Bytes → Bool → Registry → Registry
unfolding mark
set_alert_channel_failing name failing r =
    let told = tell (Op.set Vector.alert_channel_failing (name ∷ []) (one_if failing) ∷ []) r in
    record told { failing_alert_channels = mark name failing r.failing_alert_channels }

-- What `readyzHandler` computes from `Readiness`, and the status that it answers with.
unfoldable pub ready : Registry → Bool
ready r =
    r.monitor_connected
    && r.role_known
    && is_empty r.failing_outputs
    && is_empty r.failing_alert_channels

unfoldable pub readyz_status : Registry → ℕ
unfolding ready
readyz_status r = if ready r then 200 else 503
