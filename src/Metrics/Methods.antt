-- ===== src/Metrics/Methods.antt =====
-- internal/metrics/metrics.go: the methods that touch no state of the registry's own. Each is the
-- list of the calls of vectors that it makes, the latest first. A duration is in nanoseconds, a time
-- in seconds.
use redis_watcher.Base.{Bool, List, [], ◌∷◌}
use redis_watcher.Base.Bytes.{Bytes}
use redis_watcher.Base.Tests.{if◌then◌else◌}
use redis_watcher.Go.Int.{ℤ}
use redis_watcher.Metrics.Vectors.{Vector, Op, inc, set, observe}

unfoldable pub record_suspicious : Bytes → Bytes → List Op
record_suspicious command source_ip = inc Vector.suspicious_total (command ∷ source_ip ∷ []) ∷ []

unfoldable pub record_role_transition : Bytes → Bytes → List Op
record_role_transition before after = inc Vector.role_transitions (before ∷ after ∷ []) ∷ []

unfoldable pub observe_last_event : ℤ → List Op
observe_last_event seconds = set Vector.last_event_timestamp_seconds [] seconds ∷ []

unfoldable pub observe_monitor_session : ℤ → List Op
observe_monitor_session d = observe Vector.monitor_session_seconds [] d ∷ []

unfoldable pub incr_parse_error : List Op
incr_parse_error = inc Vector.parse_errors_total [] ∷ []

unfoldable pub incr_reconnect : List Op
incr_reconnect = inc Vector.reconnects_total [] ∷ []

unfoldable pub incr_monitor_dropped : List Op
incr_monitor_dropped = inc Vector.monitor_dropped_total [] ∷ []

unfoldable pub incr_output_written : Bytes → List Op
incr_output_written output = inc Vector.output_written_total (output ∷ []) ∷ []

unfoldable pub incr_output_dropped : Bytes → List Op
incr_output_dropped output = inc Vector.dropped_events_total (output ∷ []) ∷ []

unfoldable pub incr_output_error : Bytes → List Op
incr_output_error output = inc Vector.output_errors_total (output ∷ []) ∷ []

unfoldable pub observe_output_write : Bytes → ℤ → List Op
observe_output_write output d = observe Vector.output_write_seconds (output ∷ []) d ∷ []

unfoldable pub alert_sent : Bytes → Bytes → List Op
alert_sent channel command = inc Vector.alerts_sent_total (channel ∷ command ∷ []) ∷ []

unfoldable pub alert_error : Bytes → List Op
alert_error channel = inc Vector.alert_send_errors (channel ∷ []) ∷ []

unfoldable pub suspicious_observed : Bytes → Bytes → List Op
unfolding record_suspicious
suspicious_observed command source_ip = record_suspicious command source_ip

unfoldable pub alert_retry : Bytes → List Op
alert_retry channel = inc Vector.alert_retry_attempts (channel ∷ []) ∷ []

unfoldable pub alert_dropped : List Op
alert_dropped = inc Vector.alert_dropped_total [] ∷ []

unfoldable pub alert_rate_limited : Bytes → List Op
alert_rate_limited command = inc Vector.alert_rate_limited_total (command ∷ []) ∷ []

unfoldable pub observe_alert_send : Bytes → ℤ → List Op
observe_alert_send channel d = observe Vector.alert_send_seconds (channel ∷ []) d ∷ []

-- now: `time.Now().Unix()`.
unfoldable pub record_role_probe : ℤ → Bool → ℤ → List Op
record_role_probe now success d =
    if success
    then set Vector.last_role_probe_timestamp_secs [] now
      ∷ inc Vector.role_probe_success_total []
      ∷ observe Vector.role_probe_duration_seconds [] d
      ∷ []
    else inc Vector.role_probe_failures_total []
      ∷ observe Vector.role_probe_duration_seconds [] d
      ∷ []

-- The dispatcher's own count of an event that the filter drops.
unfoldable pub incr_ignored_event : Bytes → List Op
incr_ignored_event command = inc Vector.ignored_events_total (command ∷ []) ∷ []

-- A call of one of these methods.
pub data Method : Type 0 where
  suspicious : Bytes → Bytes → Method
  role_transition : Bytes → Bytes → Method
  last_event : ℤ → Method
  monitor_session : ℤ → Method
  parse_error : Method
  reconnect : Method
  monitor_dropped : Method
  output_written : Bytes → Method
  output_dropped : Bytes → Method
  output_error : Bytes → Method
  output_write : Bytes → ℤ → Method
  sent : Bytes → Bytes → Method
  send_error : Bytes → Method
  observed : Bytes → Bytes → Method
  retry : Bytes → Method
  dropped : Method
  rate_limited : Bytes → Method
  alert_send : Bytes → ℤ → Method
  role_probe : ℤ → Bool → ℤ → Method
  ignored_event : Bytes → Method

unfoldable pub method_ops : Method → List Op
method_ops (suspicious c ip) = record_suspicious c ip
method_ops (role_transition a b) = record_role_transition a b
method_ops (last_event t) = observe_last_event t
method_ops (monitor_session d) = observe_monitor_session d
method_ops parse_error = incr_parse_error
method_ops reconnect = incr_reconnect
method_ops monitor_dropped = incr_monitor_dropped
method_ops (output_written o) = incr_output_written o
method_ops (output_dropped o) = incr_output_dropped o
method_ops (output_error o) = incr_output_error o
method_ops (output_write o d) = observe_output_write o d
method_ops (sent ch c) = alert_sent ch c
method_ops (send_error ch) = alert_error ch
method_ops (observed c ip) = suspicious_observed c ip
method_ops (retry ch) = alert_retry ch
method_ops dropped = alert_dropped
method_ops (rate_limited c) = alert_rate_limited c
method_ops (alert_send ch d) = observe_alert_send ch d
method_ops (role_probe now ok d) = record_role_probe now ok d
method_ops (ignored_event c) = incr_ignored_event c
