-- ===== src/Metrics/Vectors.antt =====
-- internal/metrics/metrics.go: the vectors of the registry, and what each is created with. A plain
-- counter, gauge or histogram is a vector without labels.
use redis_watcher.Base.{ℕ, ◌+◌, Bool, true, false, ◌&&◌, List, [], ◌∷◌, ◌++◌, Option, none, some}
use redis_watcher.Base.Bytes.{Bytes, codes, eq_bytes}
use redis_watcher.Base.Tests.{◌==◌, if◌then◌else◌}
use redis_watcher.Go.Int.{ℤ}

-- The fields of the struct `Registry` that hold Prometheus vectors.
pub data Vector : Type 0 where
  commands_total : Vector
  commands_by_ip_total : Vector
  commands_by_db_total : Vector
  events_processed : Vector
  suspicious_total : Vector
  ignored_events_total : Vector
  parse_errors_total : Vector
  reconnects_total : Vector
  monitor_dropped_total : Vector
  dropped_events_total : Vector
  output_errors_total : Vector
  alert_send_errors : Vector
  alert_retry_attempts : Vector
  alert_dropped_total : Vector
  alert_rate_limited_total : Vector
  role_probe_success_total : Vector
  role_probe_failures_total : Vector
  output_written_total : Vector
  output_write_seconds : Vector
  output_failing : Vector
  alerts_sent_total : Vector
  alert_send_seconds : Vector
  alert_channel_failing : Vector
  redis_is_master : Vector
  redis_role_info : Vector
  role_transitions : Vector
  role_probe_duration_seconds : Vector
  last_role_probe_timestamp_secs : Vector
  monitor_connected : Vector
  last_event_timestamp_seconds : Vector
  monitor_session_seconds : Vector
  build_info : Vector
  start_time_seconds : Vector

-- The place of a field, by which vectors are told apart.
abbrev pub place : Vector → ℕ
place commands_total = 0
place commands_by_ip_total = 1
place commands_by_db_total = 2
place events_processed = 3
place suspicious_total = 4
place ignored_events_total = 5
place parse_errors_total = 6
place reconnects_total = 7
place monitor_dropped_total = 8
place dropped_events_total = 9
place output_errors_total = 10
place alert_send_errors = 11
place alert_retry_attempts = 12
place alert_dropped_total = 13
place alert_rate_limited_total = 14
place role_probe_success_total = 15
place role_probe_failures_total = 16
place output_written_total = 17
place output_write_seconds = 18
place output_failing = 19
place alerts_sent_total = 20
place alert_send_seconds = 21
place alert_channel_failing = 22
place redis_is_master = 23
place redis_role_info = 24
place role_transitions = 25
place role_probe_duration_seconds = 26
place last_role_probe_timestamp_secs = 27
place monitor_connected = 28
place last_event_timestamp_seconds = 29
place monitor_session_seconds = 30
place build_info = 31
place start_time_seconds = 32

abbrev pub same : Vector → Vector → Bool
same v w = place v == place w

pub data Kind : Type 0 where
  counter : Kind
  gauge : Kind
  histogram : Kind

-- `Name` and the label names; the namespace is one for all.
pub record Descriptor : Type 0 where
  pub vector : Vector
  pub kind : Kind
  pub name : Bytes
  pub labels : List Bytes

abbrev vec : Kind → Vector → Bytes → List Bytes → Descriptor
vec k v n ls = record { vector = v; kind = k; name = n; labels = ls }

abbrev pub command_metrics : List Descriptor
command_metrics =
    vec counter commands_total (codes "commands_total") (codes "command" ∷ codes "db" ∷ [])
    ∷ vec counter commands_by_ip_total (codes "commands_by_ip_total")
        (codes "command" ∷ codes "source_ip" ∷ [])
    ∷ vec counter commands_by_db_total (codes "commands_by_db_total") (codes "db" ∷ [])
    ∷ vec counter events_processed (codes "events_processed_total") []
    ∷ vec counter suspicious_total (codes "suspicious_commands_total")
        (codes "command" ∷ codes "source_ip" ∷ [])
    ∷ vec counter ignored_events_total (codes "ignored_events_total") (codes "command" ∷ [])
    ∷ []

abbrev pub error_metrics : List Descriptor
error_metrics =
    vec counter parse_errors_total (codes "parse_errors_total") []
    ∷ vec counter reconnects_total (codes "monitor_reconnects_total") []
    ∷ vec counter monitor_dropped_total (codes "monitor_dropped_events_total") []
    ∷ vec counter dropped_events_total (codes "dropped_events_total") (codes "consumer" ∷ [])
    ∷ vec counter output_errors_total (codes "output_errors_total") (codes "output" ∷ [])
    ∷ vec counter alert_send_errors (codes "alert_send_errors_total") (codes "channel" ∷ [])
    ∷ vec counter alert_retry_attempts (codes "alert_retry_attempts_total") (codes "channel" ∷ [])
    ∷ vec counter alert_dropped_total (codes "alert_dropped_total") []
    ∷ vec counter alert_rate_limited_total (codes "alert_rate_limited_total") (codes "command" ∷ [])
    ∷ vec counter role_probe_success_total (codes "role_probe_successes_total") []
    ∷ vec counter role_probe_failures_total (codes "role_probe_failures_total") []
    ∷ []

abbrev pub output_metrics : List Descriptor
output_metrics =
    vec counter output_written_total (codes "output_written_total") (codes "output" ∷ [])
    ∷ vec histogram output_write_seconds (codes "output_write_duration_seconds")
        (codes "output" ∷ [])
    ∷ vec gauge output_failing (codes "output_failing") (codes "output" ∷ [])
    ∷ []

abbrev pub alert_metrics : List Descriptor
alert_metrics =
    vec counter alerts_sent_total (codes "alerts_sent_total")
      (codes "channel" ∷ codes "command" ∷ [])
    ∷ vec histogram alert_send_seconds (codes "alert_send_duration_seconds") (codes "channel" ∷ [])
    ∷ vec gauge alert_channel_failing (codes "alert_channel_failing") (codes "channel" ∷ [])
    ∷ []

abbrev pub role_metrics : List Descriptor
role_metrics =
    vec gauge redis_is_master (codes "redis_is_master") []
    ∷ vec gauge redis_role_info (codes "redis_role_info") (codes "role" ∷ [])
    ∷ vec counter role_transitions (codes "redis_role_transitions_total")
        (codes "from" ∷ codes "to" ∷ [])
    ∷ vec histogram role_probe_duration_seconds (codes "role_probe_duration_seconds") []
    ∷ vec gauge last_role_probe_timestamp_secs (codes "last_role_probe_timestamp_seconds") []
    ∷ []

abbrev pub connectivity_metrics : List Descriptor
connectivity_metrics =
    vec gauge monitor_connected (codes "monitor_connected") []
    ∷ vec gauge last_event_timestamp_seconds (codes "last_event_timestamp_seconds") []
    ∷ vec histogram monitor_session_seconds (codes "monitor_session_duration_seconds") []
    ∷ []

abbrev pub build_metrics : List Descriptor
build_metrics =
    vec gauge build_info (codes "build_info") (codes "version" ∷ codes "commit" ∷ [])
    ∷ vec gauge start_time_seconds (codes "start_time_seconds") []
    ∷ []

-- What `New` creates, in its order.
abbrev pub descriptors : List Descriptor
descriptors =
    command_metrics ++ error_metrics ++ output_metrics ++ alert_metrics ++ role_metrics
    ++ connectivity_metrics ++ build_metrics

-- A call that the registry makes of a vector, with the label values.
pub data Op : Type 0 where
  inc : Vector → List Bytes → Op
  set : Vector → List Bytes → ℤ → Op
  observe : Vector → List Bytes → ℤ → Op
  reset : Vector → Op

-- The number of increments of a counter, over all labels, and of observations of a histogram.
unfoldable pub total : Vector → List Op → ℕ
total v [] = 0
total v (inc w ls ∷ ops) = (if same v w then 1 else 0) + total v ops
total v (observe w ls d ∷ ops) = (if same v w then 1 else 0) + total v ops
total v (set w ls x ∷ ops) = total v ops
total v (reset w ∷ ops) = total v ops

abbrev pub eq_labels : List Bytes → List Bytes → Bool
eq_labels [] [] = true
eq_labels (x ∷ xs) (y ∷ ys) = eq_bytes x y && eq_labels xs ys
eq_labels _ _ = false

-- What a gauge shows for label values after the calls, the latest of them first.
unfoldable pub shown : Vector → List Bytes → List Op → Option ℤ
shown v ls [] = none
shown v ls (set w ks x ∷ ops) = if same v w && eq_labels ls ks then some x else shown v ls ops
shown v ls (reset w ∷ ops) = if same v w then none else shown v ls ops
shown v ls (inc w ks ∷ ops) = shown v ls ops
shown v ls (observe w ks d ∷ ops) = shown v ls ops
