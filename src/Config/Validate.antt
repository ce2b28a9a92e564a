-- ===== src/Config/Validate.antt =====
-- `Validate` of internal/config/config.go, part by part: each check reads and corrects one part of
-- the configuration. An error names the check that failed.
use redis_watcher.Base.{
  ℕ, suc, zero, Bool, true, false, not, ◌&&◌, ◌||◌, List, [], ◌∷◌, Option, none, some,
}
use redis_watcher.Base.Bytes.{Bytes, codes, is_empty, eq_bytes}
use redis_watcher.Base.Results.{Result, ok, err, ◌>>=◌}
use redis_watcher.Base.Tests.{if◌then◌else◌}
use redis_watcher.Go.Int.{ℤ, pos, gt_ℤ, default_time}
use redis_watcher.Go.Text.{Unicode, to_lower, trim_space}
use redis_watcher.Config.{
  Config, RedisConfig, LogConfig, RoleCheckConfig, OutputConfig, MetricsConfig, RetryConfig,
  PushgatewayConfig, AlertsConfig, SentryConfig, PipelineConfig, seconds, contains,
}

pub data ConfigError : Type 0 where
  bad_network : Bytes → ConfigError
  no_address : ConfigError
  bad_level : Bytes → ConfigError
  bad_log_format : Bytes → ConfigError
  no_path : ℕ → ConfigError
  no_output_address : ℕ → Bytes → ConfigError
  unknown_type : ℕ → Bytes → ConfigError
  bad_format : ℕ → ConfigError
  no_metrics_address : ConfigError
  bad_telegram : ConfigError
  bad_webhook : ConfigError
  no_urls : ConfigError
  empty_url : ℕ → ConfigError
  negative_initial : ConfigError
  negative_max : ConfigError
  initial_above_max : ConfigError
  no_dsn : ConfigError

-- `if b { return err }`
abbrev pub refuse {ℓ} :
    {A : Type ℓ} → Bool → ConfigError → Result ConfigError A → Result ConfigError A
refuse b e next = if b then err e else next

abbrev pub is_zero : ℤ → Bool
is_zero (pos zero) = true
is_zero _ = false

unfoldable pub validate_redis : RedisConfig → Result ConfigError RedisConfig
validate_redis r =
    refuse (not (eq_bytes r.network (codes "unix")) && not (eq_bytes r.network (codes "tcp")))
      (bad_network r.network)
      (refuse (is_empty r.address) no_address (
        let low = default_time r.backoff_min (seconds 1) in
        ok (record r {
          backoff_min = low;
          backoff_max = if gt_ℤ low r.backoff_max then low else r.backoff_max;
        })))

abbrev pub levels : List Bytes
levels = codes "debug" ∷ codes "info" ∷ codes "warn" ∷ codes "warning" ∷ codes "error" ∷ []

abbrev pub log_formats : List Bytes
log_formats = [] ∷ codes "json" ∷ codes "text" ∷ []

unfoldable pub validate_log : Unicode → LogConfig → Result ConfigError LogConfig
validate_log u l =
    refuse (not (contains levels (to_lower u l.level))) (bad_level l.level)
      (refuse (not (contains log_formats (to_lower u l.format))) (bad_log_format l.format) (ok l))

-- The switch on the type of output `i`.
unfoldable pub validate_kind : ℕ → OutputConfig → Result ConfigError OutputConfig
validate_kind i o =
    if eq_bytes o.kind (codes "stdout")
    then ok o
    else if eq_bytes o.kind (codes "file")
    then refuse (is_empty o.path) (no_path i) (
        ok (
          if is_zero o.rotation.max_size_mb
          then record o { rotation = record o.rotation { max_size_mb = pos 100 } }
          else o))
    else if eq_bytes o.kind (codes "udp") || eq_bytes o.kind (codes "tcp")
    then refuse (is_empty o.address) (no_output_address i o.kind)
        (ok (if is_zero o.timeout then record o { timeout = seconds 5 } else o))
    else err (unknown_type i o.kind)

unfoldable pub validate_format : ℕ → OutputConfig → Result ConfigError OutputConfig
validate_format i o =
    if is_empty o.format
    then ok (record o { format = codes "json" })
    else if eq_bytes o.format (codes "json") || eq_bytes o.format (codes "text")
    then ok o
    else err (bad_format i)

unfoldable pub validate_output : ℕ → OutputConfig → Result ConfigError OutputConfig
validate_output i o = if o.enabled then validate_kind i o >>= validate_format i else ok o

-- The loop over the outputs, from index `i`.
unfoldable pub validate_outputs : ℕ → List OutputConfig → Result ConfigError (List OutputConfig)
validate_outputs i [] = ok []
validate_outputs i (o ∷ os) =
    validate_output i o >>= λ o'. validate_outputs (suc i) os >>= λ os'. ok (o' ∷ os')

unfoldable pub validate_metrics : MetricsConfig → Result ConfigError MetricsConfig
validate_metrics m =
    refuse (m.enabled && is_empty m.address) no_metrics_address
      (ok (if is_empty m.path then record m { path = codes "/metrics" } else m))

-- `RetryConfig.validate`.
unfoldable pub validate_retry : RetryConfig → Result ConfigError RetryConfig
validate_retry r = refuse (gt_ℤ (pos 0) r.initial_backoff) negative_initial (
    refuse (gt_ℤ (pos 0) r.max_backoff) negative_max (
      refuse (gt_ℤ r.max_backoff (pos 0) && gt_ℤ r.initial_backoff r.max_backoff) initial_above_max
        (ok (record r { max_attempts = default_time r.max_attempts (pos 1) }))))

-- The loop over the Pushgateway's URLs, from index `i`: the first blank one.
unfoldable pub blank_url : Unicode → ℕ → List Bytes → Option ℕ
blank_url u i [] = none
blank_url u i (x ∷ xs) = if is_empty (trim_space u x) then some i else blank_url u (suc i) xs

unfoldable pub validate_urls : Unicode → PushgatewayConfig → Result ConfigError (Unit {0})
validate_urls u p =
    if p.enabled
    then refuse (is_empty p.urls) no_urls
        (elim (blank_url u 0 p.urls) [ none ↦ ok tt | some i ↦ err (empty_url i) ])
    else ok tt

unfoldable pub validate_alerts : Unicode → AlertsConfig → Result ConfigError AlertsConfig
validate_alerts u a =
    if a.enabled
    then refuse
        (a.telegram.enabled && (is_empty a.telegram.bot_token || is_empty a.telegram.chat_id))
        bad_telegram
        (refuse (a.webhook.enabled && is_empty a.webhook.url) bad_webhook (
          validate_urls u a.pushgateway >>= λ _. validate_retry a.retry >>= λ r. ok (record a {
            webhook =
                if a.webhook.enabled && is_empty a.webhook.method
                then record a.webhook { method = codes "POST" }
                else a.webhook;
            retry = r;
          })))
    else ok a

unfoldable pub validate_sentry : SentryConfig → Result ConfigError SentryConfig
validate_sentry s = refuse (s.enabled && is_empty s.dsn) no_dsn (ok s)

unfoldable pub fix_pipeline : PipelineConfig → PipelineConfig
fix_pipeline p = record p {
  event_buffer = default_time p.event_buffer (pos 10000);
  consumer_buffer = default_time p.consumer_buffer (pos 2000);
}

unfoldable pub fix_role_check : RoleCheckConfig → RoleCheckConfig
fix_role_check r =
    if r.enabled
    then record r {
      interval = default_time r.interval (seconds 5);
      dial_timeout = default_time r.dial_timeout (seconds 3);
      read_timeout = default_time r.read_timeout (seconds 3);
    }
    else r

unfoldable pub validate : Unicode → Config → Result ConfigError Config
validate u c = validate_redis c.redis >>= λ redis. validate_log u c.log >>= λ log.
    validate_outputs 0 c.outputs >>= λ outputs. validate_metrics c.metrics >>= λ metrics.
    validate_alerts u c.alerts >>= λ alerts. validate_sentry c.sentry >>= λ sentry. ok (record c {
      redis = redis;
      log = log;
      outputs = outputs;
      metrics = metrics;
      alerts = alerts;
      sentry = sentry;
      pipeline = fix_pipeline c.pipeline;
      role_check = fix_role_check c.role_check;
    })
