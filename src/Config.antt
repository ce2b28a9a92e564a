-- ===== src/Config.antt =====
-- internal/config/config.go: the settings, as far as the program's logic reads them. Left out are
-- the two sampling rates of Sentry and the YAML decoder, which fills these records.
pub mod Validate
pub mod Validated
pub mod Stable
pub mod Env
pub mod Filter
mod Examples
use redis_watcher.Base.{ℕ, ◌*◌, Bool, true, false, List, [], ◌∷◌, ◌++◌}
use redis_watcher.Base.Bytes.{Bytes, codes, is_empty, eq_bytes}
use redis_watcher.Base.Lists.{any}
use redis_watcher.Base.Tests.{if◌then◌else◌}
use redis_watcher.Go.Int.{ℤ, pos}
use redis_watcher.Go.Text.{Unicode, to_upper, trim_space}

pub record RedisConfig : Type 0 where
  pub network : Bytes
  pub address : Bytes
  pub username : Bytes
  pub password : Bytes
  pub dial_timeout : ℤ
  pub read_timeout : ℤ
  pub backoff_min : ℤ
  pub backoff_max : ℤ

pub record LogConfig : Type 0 where
  pub level : Bytes
  pub format : Bytes
  pub file : Bytes

pub record FilterConfig : Type 0 where
  pub ignored_commands : List Bytes

pub record RoleCheckConfig : Type 0 where
  pub enabled : Bool
  pub interval : ℤ
  pub dial_timeout : ℤ
  pub read_timeout : ℤ
  pub allow_replica : Bool

pub record RotationConfig : Type 0 where
  pub max_size_mb : ℤ
  pub max_backups : ℤ
  pub max_age_days : ℤ
  pub compress : Bool
  pub local_time : Bool

-- The field `Type` of the source is `kind` here.
pub record OutputConfig : Type 0 where
  pub kind : Bytes
  pub enabled : Bool
  pub format : Bytes
  pub path : Bytes
  pub address : Bytes
  pub timeout : ℤ
  pub keepalive : ℤ
  pub rotation : RotationConfig

pub record MetricsConfig : Type 0 where
  pub enabled : Bool
  pub address : Bytes
  pub path : Bytes
  pub ignored_commands : List Bytes
  pub track_source_ip : Bool

pub record RateLimitConfig : Type 0 where
  pub enabled : Bool
  pub window : ℤ
  pub max_alerts : ℤ

pub record RetryConfig : Type 0 where
  pub max_attempts : ℤ
  pub initial_backoff : ℤ
  pub max_backoff : ℤ

pub record TelegramConfig : Type 0 where
  pub enabled : Bool
  pub endpoint : Bytes
  pub bot_token : Bytes
  pub chat_id : Bytes
  pub thread_id : ℤ
  pub timeout : ℤ

pub record WebhookConfig : Type 0 where
  pub enabled : Bool
  pub url : Bytes
  pub method : Bytes
  pub timeout : ℤ
  pub headers : List (Bytes × Bytes)

pub record PushgatewayConfig : Type 0 where
  pub enabled : Bool
  pub urls : List Bytes
  pub username : Bytes
  pub password : Bytes
  pub job : Bytes
  pub timeout : ℤ
  pub labels : List (Bytes × Bytes)

pub record AlertsConfig : Type 0 where
  pub enabled : Bool
  pub suspicious_commands : List Bytes
  pub patterns : List Bytes
  pub ignored_source_ips : List Bytes
  pub rate_limit : RateLimitConfig
  pub retry : RetryConfig
  pub telegram : TelegramConfig
  pub webhook : WebhookConfig
  pub pushgateway : PushgatewayConfig

pub record SentryConfig : Type 0 where
  pub enabled : Bool
  pub dsn : Bytes
  pub environment : Bytes
  pub release : Bytes
  pub attach_stacktrace : Bool

pub record PipelineConfig : Type 0 where
  pub event_buffer : ℤ
  pub consumer_buffer : ℤ
  pub drop_on_full : Bool

pub record Config : Type 0 where
  pub redis : RedisConfig
  pub log : LogConfig
  pub filter : FilterConfig
  pub role_check : RoleCheckConfig
  pub outputs : List OutputConfig
  pub metrics : MetricsConfig
  pub alerts : AlertsConfig
  pub sentry : SentryConfig
  pub pipeline : PipelineConfig

-- `IgnoredSet`, as the list of its members.
unfoldable pub ignored_set : Unicode → List Bytes → List Bytes
ignored_set u [] = []
ignored_set u (c ∷ cs) =
    let d = to_upper u (trim_space u c) in
    if is_empty d then ignored_set u cs else d ∷ ignored_set u cs

abbrev pub contains : List Bytes → Bytes → Bool
contains set s = any (eq_bytes s) set

abbrev pub seconds : ℕ → ℤ
seconds n = pos (n * 1_000_000_000)

-- `Default`.
abbrev pub default : Config
default = record {
  redis = record {
    network = codes "unix";
    address = codes "/var/run/redis/redis.sock";
    username = [];
    password = [];
    dial_timeout = seconds 5;
    read_timeout = pos 0;
    backoff_min = seconds 1;
    backoff_max = seconds 30;
  };
  log = record { level = codes "info"; format = codes "json"; file = [] };
  filter = record { ignored_commands = [] };
  role_check = record {
    enabled = true;
    interval = seconds 5;
    dial_timeout = seconds 3;
    read_timeout = seconds 3;
    allow_replica = false;
  };
  outputs = [];
  metrics = record {
    enabled = true;
    address = codes ":9100";
    path = codes "/metrics";
    ignored_commands = [];
    track_source_ip = true;
  };
  alerts = record {
    enabled = false;
    suspicious_commands = [];
    patterns = [];
    ignored_source_ips = [];
    rate_limit = record { enabled = true; window = seconds 60; max_alerts = pos 5 };
    retry = record {
      max_attempts = pos 3;
      initial_backoff = pos 500_000_000;
      max_backoff = seconds 5;
    };
    telegram = record {
      enabled = false;
      endpoint = [];
      bot_token = [];
      chat_id = [];
      thread_id = pos 0;
      timeout = pos 0;
    };
    webhook = record { enabled = false; url = []; method = []; timeout = pos 0; headers = [] };
    pushgateway = record {
      enabled = false;
      urls = [];
      username = [];
      password = [];
      job = [];
      timeout = pos 0;
      labels = [];
    };
  };
  sentry = record {
    enabled = false;
    dsn = [];
    environment = codes "production";
    release = [];
    attach_stacktrace = true;
  };
  pipeline = record { event_buffer = pos 10000; consumer_buffer = pos 2000; drop_on_full = true };
}
