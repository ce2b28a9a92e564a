-- ===== src/App/Examples.antt =====
-- Witnesses and runs of the application.
use redis_watcher.Base.{Bool, true, false, List, [], ◌∷◌, Option, none, ◌≡◌, ◌∙◌, refl}
use redis_watcher.Base.Bytes.{Bytes, codes, eq_bytes}
use redis_watcher.Base.Results.{Result, ok}
use redis_watcher.Alert.Engine.{Engine}
use redis_watcher.Alert.Retry.{retry_reporter}
use redis_watcher.App.{build_outputs, some_of}
use redis_watcher.App.Build.{enabled_kinds}
use redis_watcher.App.Start.{Started, StartError, start}
use redis_watcher.Config.Env.{File, readable}
use redis_watcher.App.Wiring.{wire_metrics, wire_metrics-validate}
use redis_watcher.Metrics.Queues.{collect, consistent}
use redis_watcher.Metrics.Registered.{distinct}
use redis_watcher.Monitor.Client.{Client}
use redis_watcher.Config.{Config, OutputConfig, default}
use redis_watcher.Config.Validate.{
  validate, validate_redis, validate_log, validate_outputs, validate_output, validate_kind,
  validate_format, validate_metrics, validate_retry, validate_urls, validate_alerts,
  validate_sentry, fix_pipeline, fix_role_check,
}
use redis_watcher.Go.Int.{pos}
use redis_watcher.Go.Text.{Unicode, to_lower, lower_byte}
use redis_watcher.Output.Sinks.{Sink}
use redis_watcher.Output.{Consumer}
use redis_watcher.Alert

abbrev pub tables : Unicode
tables = record { map_upper = λ s. s; map_lower = λ s. s; trim_func = λ s. s }

abbrev output : OutputConfig
output = record {
  kind = codes "tcp";
  enabled = true;
  format = codes "text";
  path = [];
  address = codes "a:1";
  timeout = pos 1;
  keepalive = pos 0;
  rotation = record {
    max_size_mb = pos 0;
    max_backups = pos 0;
    max_age_days = pos 0;
    compress = false;
    local_time = false;
  };
}

abbrev config : Config
config = record default {
  outputs = output ∷ [];
  alerts = record default.alerts {
    enabled = true;
    webhook = record default.alerts.webhook {
      enabled = true;
      url = codes "http://a";
      method = codes "PUT";
    };
  };
}

config-accepted : validate tables config ≡ ok config
unfolding validate validate_redis validate_log validate_outputs validate_output validate_kind
    validate_format validate_metrics validate_retry validate_urls validate_alerts validate_sentry
    fix_pipeline fix_role_check eq_bytes to_lower lower_byte
config-accepted = refl

-- The monitor's client, and two outputs of one type.
abbrev mon : Client
mon = record {
  opts = record { read_timeout = pos 0; backoff_min = pos 1; backoff_max = pos 2 };
  queue = [];
  capacity = 8;
  drop = true;
  dropped = 0;
  parse_errors = 0;
  reconnections = 0;
}

wire_metrics-validate_example :
    (cs : List (Sink × Consumer)) × (build_outputs config ≡ ok (some_of cs))
    × (consistent (collect (wire_metrics mon cs none)) ≡ distinct (enabled_kinds config.outputs))
wire_metrics-validate_example = wire_metrics-validate tables config config mon none config-accepted

-- With two outputs of one type, which the validation accepts, a scrape is refused.
abbrev two_outputs : Config
two_outputs = record config { outputs = output ∷ record output { address = codes "b:1" } ∷ [] }

two_outputs-accepted : validate tables two_outputs ≡ ok two_outputs
unfolding validate validate_redis validate_log validate_outputs validate_output validate_kind
    validate_format validate_metrics validate_retry validate_urls validate_alerts validate_sentry
    fix_pipeline fix_role_check eq_bytes to_lower lower_byte
two_outputs-accepted = refl

two_outputs-refused :
    (cs : List (Sink × Consumer)) × (build_outputs two_outputs ≡ ok (some_of cs))
    × (consistent (collect (wire_metrics mon cs none)) ≡ false)
two_outputs-refused =
    let (cs, built, same) =
      wire_metrics-validate tables two_outputs two_outputs mon none two_outputs-accepted in
    (cs, built, same ∙ unfold enabled_kinds eq_bytes in refl)

abbrev pub engine : Engine
engine = record {
  channels = codes "webhook" ∷ [];
  commands = [];
  patterns = [];
  ignored_ips = [];
  limit = record { enabled = true; window = pos 60_000_000_000; max_alerts = pos 5 };
  policy = record {
    retry_max = 3;
    initial_backoff = pos 500_000_000;
    max_backoff = pos 5_000_000_000;
    reporter = retry_reporter;
  };
  rates = [];
  queue = [];
  capacity = 2000;
  timeout = pos 10_000_000_000;
  drop = true;
  dropped = 0;
}

abbrev no_regexp : Bytes → Option (Bytes → Bool)
no_regexp _ = none

-- The configuration file holds the configuration above; Prometheus takes the collector.
abbrev config_file : File
config_file = readable (λ _. ok config)

abbrev start_result : Result StartError Started
start_result = start tables (λ _. none) no_regexp (λ _. none) [] (λ _. none) (λ _. none) config_file
