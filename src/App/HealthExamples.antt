-- ===== src/App/HealthExamples.antt =====
-- Witnesses of the readiness probe and of the shutdown.
use redis_watcher.Base.{true, false, List, [], ◌∷◌, none, some, ◌≡◌, refl}
use redis_watcher.Base.Bytes.{codes, eq_bytes}
use redis_watcher.Base.Results.{err}
use redis_watcher.App.Health.{
  told, flags, Sessions, idle, session, readyz_status-Run, readyz_status-Sessions,
}
use redis_watcher.App.Shutdown.{Parts, started as started_tasks}
use redis_watcher.Event.{Event}
use redis_watcher.Go.Int.{pos}
use redis_watcher.Go.Text.{Unicode}
use redis_watcher.Metrics.{
  new_registry, readyz_status, ready, set_redis_role, set_monitor_connected, set_output_failing,
  mark, add_name, delete_name,
}
use redis_watcher.Metrics.Ready.{
  Call, role, connected, output_failing, output_test, after_calls, apply,
}
use redis_watcher.Monitor.Client.{Client}
use redis_watcher.Monitor.Client.Session.{run_once}
use redis_watcher.Output.{
  Consumer, Effect, new_consumer, submit, run_one, write_one, observe_output_write,
  incr_output_error, incr_output_written, set_output_failing as set_failing, report, at_write,
}
use redis_watcher.Output.Queue.{Run, started, submitted, served}

abbrev event : Event
event = record {
  timestamp = record { sec = pos 7; nsec = 0 };
  db = pos 0;
  source = record { ip = codes "::1"; port = codes "5" };
  command = codes "GET";
  subcommand = [];
  args = [];
}

-- A consumer whose first write fails and whose second one works.
abbrev recovered : Consumer
recovered = record (new_consumer 2 true) { written = 1; errors = 1 }

abbrev effects : List Effect
effects =
    observe_output_write
    ∷ incr_output_error
    ∷ set_failing true
    ∷ report at_write (codes "reset") (codes "GET")
    ∷ observe_output_write
    ∷ incr_output_written
    ∷ set_failing false
    ∷ []

recovered-Run : Run 2 true (event ∷ event ∷ []) (event ∷ event ∷ []) effects recovered
unfolding new_consumer submit run_one write_one
recovered-Run =
    served event none
      (served event (some (codes "reset"))
        (submitted {es' = []} event (submitted {es' = []} event started refl) refl) refl)
      refl

-- The latest call first.
abbrev calls : List Call
calls =
    output_failing (codes "file") false
    ∷ role (codes "master")
    ∷ output_failing (codes "file") true
    ∷ connected true
    ∷ []

calls-told : told (output_test (codes "file")) calls ≡ flags effects
unfolding eq_bytes
calls-told = refl

calls-ready : readyz_status (after_calls (new_registry [] true [] [] (pos 0)) calls) ≡ 200
unfolding readyz_status ready after_calls apply new_registry set_redis_role set_monitor_connected
    set_output_failing mark add_name delete_name eq_bytes
calls-ready = refl

readyz_status-Run_example : recovered.failing ≡ false
readyz_status-Run_example =
    readyz_status-Run [] true [] [] (pos 0) (codes "file") 2 true (event ∷ event ∷ [])
      (event ∷ event ∷ []) effects recovered calls recovered-Run calls-told calls-ready

abbrev tables : Unicode
tables = record { map_upper = λ s. s; map_lower = λ s. s; trim_func = λ s. s }

abbrev client : Client
client = record {
  opts = record { read_timeout = pos 0; backoff_min = pos 2; backoff_max = pos 5 };
  queue = [];
  capacity = 2;
  drop = true;
  dropped = 0;
  parse_errors = 0;
  reconnections = 0;
}

-- One connection that cannot be dialled.
refused : Sessions tables [] [] client [] client
unfolding run_once
refused = session (err (codes "refused")) idle

readyz_status-Sessions_example :
    readyz_status (after_calls (new_registry [] true [] [] (pos 0)) (role (codes "master") ∷ []))
    ≡ 503
readyz_status-Sessions_example =
    readyz_status-Sessions [] true [] [] (pos 0) tables [] [] client client []
      (role (codes "master") ∷ []) refused refl

-- With an alert engine and without drop_on_full: the dispatcher blocks on the engine's full queue,
-- the monitor's client returns, and the engine ends on the cancelled context.
abbrev blocking : Parts
blocking = record {
  has_checker = false;
  serves_metrics = false;
  outputs = 0;
  has_alerts = true;
  drops = false;
}
