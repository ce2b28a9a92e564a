-- ===== src/Config/Env.antt =====
-- `applyEnv` and `Load` of internal/config/config.go. The environment is a function, the file and
-- its YAML decoder are given, and so is `time.ParseDuration`.
use redis_watcher.Base.{ℕ, Bool, true, false, List, [], ◌∷◌, ◌++◌, Option, none, some, ◌≡◌}
use redis_watcher.Base.Bytes.{Bytes, codes, is_empty}
use redis_watcher.Base.Results.{Result, ok, err, ◌>>=◌, wrap, Result-eq-ok, bind-eq-ok}
use redis_watcher.Base.Tests.{◌==◌, if◌then◌else◌}
use redis_watcher.Go.Int.{ℤ, parse_int}
use redis_watcher.Go.Text.{Unicode, trim_space}
use redis_watcher.Config.{Config, AlertsConfig, default, contains}
use redis_watcher.Config.Validate.{ConfigError, validate}
use redis_watcher.Config.Stable.{validate-stable}

abbrev pub Env : Type 0
Env = Bytes → Option Bytes

abbrev pub key_of : Bytes → Bytes
key_of key = codes "REDIS_WATCHER_" ++ key

abbrev truths : List Bytes
truths = codes "1" ∷ codes "t" ∷ codes "T" ∷ codes "TRUE" ∷ codes "true" ∷ codes "True" ∷ []

abbrev falsehoods : List Bytes
falsehoods = codes "0" ∷ codes "f" ∷ codes "F" ∷ codes "FALSE" ∷ codes "false" ∷ codes "False" ∷ []

-- `strconv.ParseBool`.
unfoldable pub parse_bool : Bytes → Option Bool
parse_bool v =
    if contains truths v then some true else if contains falsehoods v then some false else none

abbrev push_byte : ℕ → List Bytes → List Bytes
push_byte c [] = (c ∷ []) ∷ []
push_byte c (l ∷ ls) = (c ∷ l) ∷ ls

-- `strings.Split(v, ",")`.
unfoldable pub split_comma : Bytes → List Bytes
split_comma [] = [] ∷ []
split_comma (c ∷ s) = let rest = split_comma s in if c == b',' then [] ∷ rest else push_byte c rest

unfoldable pub trim_all : Unicode → List Bytes → List Bytes
trim_all u [] = []
trim_all u (p ∷ ps) =
    let s = trim_space u p in if is_empty s then trim_all u ps else s ∷ trim_all u ps

-- The five setters: a variable that is not set, or cannot be read, leaves the field.
abbrev pub or_else {ℓ} : {A : Type ℓ} → Option A → A → A
or_else none d = d
or_else (some v) d = v

abbrev and_then {ℓ} : {A : Type ℓ} → Option Bytes → (Bytes → Option A) → Option A
and_then none f = none
and_then (some v) f = f v

unfoldable pub str : Env → Bytes → Bytes → Bytes
str env key dst = or_else (env (key_of key)) dst

unfoldable pub bool_var : Env → Bytes → Bool → Bool
bool_var env key dst = or_else (and_then (env (key_of key)) parse_bool) dst

unfoldable pub int_var : Env → Bytes → ℤ → ℤ
int_var env key dst = or_else (and_then (env (key_of key)) parse_int) dst

unfoldable pub slice_var : Unicode → Env → Bytes → List Bytes → List Bytes
slice_var u env key dst =
    or_else (and_then (env (key_of key)) (λ v. some (trim_all u (split_comma v)))) dst

unfoldable pub dur_var : (Bytes → Option ℤ) → Env → Bytes → ℤ → ℤ
dur_var parse_duration env key dst = or_else (and_then (env (key_of key)) parse_duration) dst

unfoldable pub env_alerts : Unicode → (Bytes → Option ℤ) → Env → AlertsConfig → AlertsConfig
unfolding str int_var slice_var dur_var
env_alerts u parse_duration env a = record a {
  telegram = record a.telegram {
    endpoint = str env (codes "ALERTS_TELEGRAM_ENDPOINT") a.telegram.endpoint;
    bot_token = str env (codes "ALERTS_TELEGRAM_BOT_TOKEN") a.telegram.bot_token;
    chat_id = str env (codes "ALERTS_TELEGRAM_CHAT_ID") a.telegram.chat_id;
    thread_id = int_var env (codes "ALERTS_TELEGRAM_THREAD_ID") a.telegram.thread_id;
  };
  webhook = record a.webhook { url = str env (codes "ALERTS_WEBHOOK_URL") a.webhook.url };
  pushgateway = record a.pushgateway {
    urls = slice_var u env (codes "ALERTS_PUSHGATEWAY_URLS") a.pushgateway.urls;
    username = str env (codes "ALERTS_PUSHGATEWAY_USERNAME") a.pushgateway.username;
    password = str env (codes "ALERTS_PUSHGATEWAY_PASSWORD") a.pushgateway.password;
  };
  retry = record a.retry {
    max_attempts = int_var env (codes "ALERTS_RETRY_MAX_ATTEMPTS") a.retry.max_attempts;
    initial_backoff =
        dur_var parse_duration env (codes "ALERTS_RETRY_INITIAL_BACKOFF") a.retry.initial_backoff;
    max_backoff = dur_var parse_duration env (codes "ALERTS_RETRY_MAX_BACKOFF") a.retry.max_backoff;
  };
}

unfoldable pub apply_env : Unicode → (Bytes → Option ℤ) → Env → Config → Config
unfolding env_alerts bool_var
apply_env u parse_duration env c = record c {
  redis = record c.redis {
    network = str env (codes "REDIS_NETWORK") c.redis.network;
    address = str env (codes "REDIS_ADDRESS") c.redis.address;
    username = str env (codes "REDIS_USERNAME") c.redis.username;
    password = str env (codes "REDIS_PASSWORD") c.redis.password;
  };
  log = record c.log {
    level = str env (codes "LOG_LEVEL") c.log.level;
    format = str env (codes "LOG_FORMAT") c.log.format;
  };
  metrics = record c.metrics { address = str env (codes "METRICS_ADDRESS") c.metrics.address };
  sentry = record c.sentry {
    dsn = str env (codes "SENTRY_DSN") c.sentry.dsn;
    enabled = bool_var env (codes "SENTRY_ENABLED") c.sentry.enabled;
    environment = str env (codes "SENTRY_ENVIRONMENT") c.sentry.environment;
    release = str env (codes "SENTRY_RELEASE") c.sentry.release;
  };
  alerts = env_alerts u parse_duration env c.alerts;
}

-- The file of `Load`: no path, a file that cannot be read, or one with what the decoder makes of
-- the configuration so far.
pub data File : Type 0 where
  no_path : File
  unreadable : Bytes → File
  readable : (Config → Result Bytes Config) → File

pub data LoadError : Type 0 where
  read_failed : Bytes → LoadError
  parse_failed : Bytes → LoadError
  invalid : ConfigError → LoadError

unfoldable pub decode : File → Config → Result LoadError Config
decode no_path c = ok c
decode (unreadable e) c = err (read_failed e)
decode (readable f) c = wrap parse_failed (f c)

unfoldable pub load : Unicode → (Bytes → Option ℤ) → Env → File → Result LoadError Config
load u parse_duration env file =
    decode file default >>= λ c. wrap invalid (validate u (apply_env u parse_duration env c))

-- What `Load` returns is accepted by `Validate` without a change: no override of the environment
-- escapes the checks.
pub load-stable :
    (u : Unicode) (parse_duration : Bytes → Option ℤ) (env : Env) (file : File) (c : Config)
    → load u parse_duration env file ≡ ok c
    → validate u c ≡ ok c
unfolding load
load-stable u parse_duration env file c h =
    let (d, decoded, checked) = bind-eq-ok (decode file default) _ h in
    validate-stable u (apply_env u parse_duration env d) c
      (Result-eq-ok invalid (validate u (apply_env u parse_duration env d)) checked)
