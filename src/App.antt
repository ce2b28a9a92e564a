-- ===== src/App.antt =====
-- internal/app/app.go: the dispatcher, and what `Run` builds from the configuration. Start has the
-- rest of what `Run` does before its goroutines, Shutdown the goroutines until it returns.
pub mod Build
pub mod Flow
pub mod Pipeline
pub mod Wiring
pub mod Compiles
pub mod Start
pub mod Health
pub mod Shutdown
mod HealthExamples
mod Examples
mod StreamExamples
use redis_watcher.Base.{
  ℕ, suc, zero, Bool, true, false, not, ◌&&◌, ◌||◌, List, [], ◌∷◌, ◌++◌, Option, none, some,
}
use redis_watcher.Base.Bytes.{Bytes, codes, is_empty, eq_bytes}
use redis_watcher.Base.Results.{Result, ok, err, wrap, ◌>>=◌}
use redis_watcher.Base.Tests.{if◌then◌else◌}
use redis_watcher.Alert.Engine.{Engine}
use redis_watcher.Alert.Retry.{retry_reporter}
use redis_watcher.Config.{Config, OutputConfig, AlertsConfig, contains, ignored_set}
use redis_watcher.Event.{Event}
use redis_watcher.Go.Int.{ℤ, pos, negsuc}
use redis_watcher.Go.Text.{Unicode}
use redis_watcher.Output.{Consumer, new_consumer}
use redis_watcher.Output.Network.{NetOptions, NetError, new_net_sink}
use redis_watcher.Output.Sinks.{FileOptions, Sink, new_file_sink}
use redis_watcher.Alert
use redis_watcher.Output

-- The dispatcher with what it hands events to: the set of ignored commands, the outputs and the
-- alert engine, where there are any.
pub record Dispatcher : Type 0 where
  pub ignored : List Bytes
  pub outputs : Option (List Consumer)
  pub alerts : Option Engine

pub data Effect : Type 0 where
  ignored_event : Bytes → Effect
  record_event : Event → Effect
  dispatched : List (List Output.Effect) → Effect
  submitted : Bool → Effect

-- `d.outputs.Dispatch(ev)` behind its guard; `none` where a consumer blocks.
unfoldable pub to_outputs :
    Event → Option (List Consumer) → Option (Option (List Consumer) × List Effect)
to_outputs ev none = some (none, [])
to_outputs ev (some cs) = elim (Output.dispatch ev cs) [
  | none ↦ none
  | some (cs', ess) ↦ some (some cs', dispatched ess ∷ [])
]

-- `d.alerts.Submit(ev)` behind its guard.
unfoldable pub to_alerts : Event → Option Engine → Option (Option Engine × List Effect)
to_alerts ev none = some (none, [])
to_alerts ev (some e) = elim (Alert.Engine.submit ev e) [
  | none ↦ none
  | some (e', told) ↦ some (some e', submitted told ∷ [])
]

-- One event from the source; `none` where a full queue blocks.
unfoldable pub dispatch_event : Dispatcher → Event → Option (Dispatcher × List Effect)
dispatch_event d ev =
    if contains d.ignored ev.command
    then some (d, ignored_event ev.command ∷ [])
    else elim (to_outputs ev d.outputs) [
      | none ↦ none
      | some (outputs, es) ↦ elim (to_alerts ev d.alerts) [
        | none ↦ none
        | some (alerts, es') ↦
            some (record d { outputs = outputs; alerts = alerts }, record_event ev ∷ (es ++ es'))
      ]
    ]

unfoldable pub dispatch_events : Dispatcher → List Event → Option Dispatcher
dispatch_events d [] = some d
dispatch_events d (ev ∷ evs) = elim (dispatch_event d ev) [
  | none ↦ none
  | some (d', _) ↦ dispatch_events d' evs
]

-- The buffer sizes are positive in a validated configuration.
abbrev pub size : ℤ → ℕ
size (pos n) = n
size (negsuc _) = zero

pub data BuildError : Type 0 where
  unsupported_type : Bytes → BuildError
  net_failed : NetError → BuildError

abbrev pub net_options : OutputConfig → NetOptions
net_options o = record {
  network = o.kind;
  address = o.address;
  timeout = o.timeout;
  keepalive = o.keepalive;
  format = o.format;
}

abbrev pub file_options : OutputConfig → FileOptions
file_options o = record {
  path = o.path;
  max_size_mb = o.rotation.max_size_mb;
  max_backups = o.rotation.max_backups;
  max_age_days = o.rotation.max_age_days;
  compress = o.rotation.compress;
  local_time = o.rotation.local_time;
  format = o.format;
}

-- The switch on the type.
unfoldable pub build_sink : OutputConfig → Result BuildError Sink
build_sink o =
    if eq_bytes o.kind (codes "stdout")
    then ok (Sink.stdout o.format)
    else if eq_bytes o.kind (codes "file")
    then ok (Sink.file (new_file_sink (file_options o)))
    else if eq_bytes o.kind (codes "udp") || eq_bytes o.kind (codes "tcp")
    then (wrap net_failed (new_net_sink (net_options o)) >>= λ s. ok (Sink.net s))
    else err (unsupported_type o.kind)

-- The loop over the outputs: each consumer with its sink.
unfoldable pub build_consumers :
    ℕ → Bool → List OutputConfig → Result BuildError (List (Sink × Consumer))
build_consumers buffer drop [] = ok []
build_consumers buffer drop (o ∷ os) =
    let rest = build_consumers buffer drop os in
    if o.enabled
    then (build_sink o >>= λ s. rest >>= λ cs. ok ((s, new_consumer buffer drop) ∷ cs))
    else rest

-- No manager where there is no output.
abbrev pub some_of {ℓ} : {A : Type ℓ} → List A → Option (List A)
some_of [] = none
some_of (x ∷ xs) = some (x ∷ xs)

unfoldable pub build_outputs : Config → Result BuildError (Option (List (Sink × Consumer)))
unfolding build_consumers
build_outputs c =
    build_consumers (size c.pipeline.consumer_buffer) c.pipeline.drop_on_full c.outputs >>= λ cs.
    ok (some_of cs)

-- The channels, by their names.
unfoldable pub channels_of : AlertsConfig → List Bytes
channels_of a =
    (if a.telegram.enabled then codes "telegram" ∷ [] else [])
    ++ ((if a.webhook.enabled then codes "webhook" ∷ [] else [])
        ++ (if a.pushgateway.enabled then codes "pushgateway" ∷ [] else []))

unfoldable pub options_of : Config → Alert.Engine.Options
options_of c = record {
  channels = channels_of c.alerts;
  commands = c.alerts.suspicious_commands;
  patterns = c.alerts.patterns;
  ignored_source_ips = c.alerts.ignored_source_ips;
  limit = record {
    enabled = c.alerts.rate_limit.enabled;
    window = c.alerts.rate_limit.window;
    max_alerts = c.alerts.rate_limit.max_alerts;
  };
  retry_max_attempts = c.alerts.retry.max_attempts;
  retry_initial_backoff = c.alerts.retry.initial_backoff;
  retry_max_backoff = c.alerts.retry.max_backoff;
  buffer_size = c.pipeline.consumer_buffer;
  drop_on_full = c.pipeline.drop_on_full;
  send_timeout = pos 0;
  reporter = retry_reporter;
}

-- `buildAlertEngine`: no engine where alerts are off or there is no channel; an error carries the
-- pattern that does not compile.
unfoldable pub build_alert_engine :
    Unicode → (Bytes → Option (Bytes → Bool)) → Config → Result Bytes (Option Engine)
unfolding options_of channels_of
build_alert_engine u compile c =
    if c.alerts.enabled
    then (if is_empty (channels_of c.alerts)
        then ok none
        else Alert.Engine.new u compile (options_of c) >>= λ e. ok (some e))
    else ok none
