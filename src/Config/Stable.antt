-- ===== src/Config/Stable.antt =====
-- A validated configuration is validated again without a change.
use redis_watcher.Base.{ℕ, suc, true, false, List, [], ◌∷◌, ◌≡◌, inl, inr, arith, ◌∙◌, sym}
use mathlib.Core.Path.{subst}
use redis_watcher.Base.Bytes.{codes, eq_bytes_refl}
use redis_watcher.Base.Results.{Result, ok, ◌>>=◌, bind-eq-ok}
use redis_watcher.Base.Tests.{Bool-cases}
use redis_watcher.Go.Text.{Unicode}
use redis_watcher.Config.{
  Config, RedisConfig, LogConfig, RoleCheckConfig, OutputConfig, MetricsConfig, RetryConfig,
  AlertsConfig, SentryConfig, PipelineConfig,
}
use redis_watcher.Config.Validate.{
  ConfigError, validate, validate_redis, validate_log, validate_kind, validate_format,
  validate_output, validate_outputs, validate_metrics, validate_retry, validate_alerts,
  validate_sentry, fix_pipeline, fix_role_check,
}

validate_redis-stable : (r r' : RedisConfig) → validate_redis r ≡ ok r' → validate_redis r' ≡ ok r'
unfolding validate_redis
validate_redis-stable r r' h = ground arith

validate_log-stable :
    (u : Unicode) (l l' : LogConfig) → validate_log u l ≡ ok l' → validate_log u l' ≡ ok l'
unfolding validate_log
validate_log-stable u l l' h = ground arith

validate_kind-stable :
    (i : ℕ) (o o' : OutputConfig) → validate_kind i o ≡ ok o' → validate_kind i o' ≡ ok o'
unfolding validate_kind
validate_kind-stable i o o' h = ground arith

validate_metrics-stable :
    (m m' : MetricsConfig) → validate_metrics m ≡ ok m' → validate_metrics m' ≡ ok m'
unfolding validate_metrics
validate_metrics-stable m m' h = ground arith

validate_retry-stable : (r r' : RetryConfig) → validate_retry r ≡ ok r' → validate_retry r' ≡ ok r'
unfolding validate_retry
validate_retry-stable r r' h = ground arith

validate_sentry-stable :
    (s s' : SentryConfig) → validate_sentry s ≡ ok s' → validate_sentry s' ≡ ok s'
unfolding validate_sentry
validate_sentry-stable s s' h = ground arith

fix_pipeline-stable : (p : PipelineConfig) → fix_pipeline (fix_pipeline p) ≡ fix_pipeline p
unfolding fix_pipeline
fix_pipeline-stable p = ground arith

fix_role_check-stable : (r : RoleCheckConfig) → fix_role_check (fix_role_check r) ≡ fix_role_check r
unfolding fix_role_check
fix_role_check-stable r = ground arith

validate_format-stable :
    (i : ℕ) (o o' : OutputConfig) → validate_format i o ≡ ok o' → validate_format i o' ≡ ok o'
unfolding validate_format
validate_format-stable i o o' h = ground (arith, eq_bytes_refl (codes "json"))

-- The format's correction does not touch what the type asks for.
validate_kind-format :
    (i : ℕ) (o o' : OutputConfig)
    → validate_format i o ≡ ok o'
    → validate_kind i o ≡ ok o
    → validate_kind i o' ≡ ok o'
unfolding validate_format validate_kind
validate_kind-format i o o' f k = ground arith

validate_format-enabled :
    (i : ℕ) (o o' o'' : OutputConfig)
    → validate_kind i o ≡ ok o'
    → validate_format i o' ≡ ok o''
    → o''.enabled ≡ o.enabled
unfolding validate_format validate_kind
validate_format-enabled i o o' o'' k f = ground arith

pub output_enabled :
    (i : ℕ) (o : OutputConfig)
    → o.enabled ≡ true
    → validate_output i o ≡ (validate_kind i o >>= validate_format i)
unfolding validate_output
output_enabled i o h = ground arith

pub output_disabled : (i : ℕ) (o : OutputConfig) → o.enabled ≡ false → validate_output i o ≡ ok o
unfolding validate_output
output_disabled i o h = ground arith

validate_output-stable :
    (i : ℕ) (o o' : OutputConfig) → validate_output i o ≡ ok o' → validate_output i o' ≡ ok o'
validate_output-stable i o o' h = elim (Bool-cases o.enabled) [
  | inr disabled ↦
      let same : o ≡ o' = ok-eq o o' (sym (output_disabled i o disabled) ∙ h) in
      subst (λ x. validate_output i x ≡ ok x) same (output_disabled i o disabled)
  | inl enabled ↦
      let (mid, kind, format) =
        bind-eq-ok (validate_kind i o) (validate_format i) (sym (output_enabled i o enabled) ∙ h) in
      let on = validate_format-enabled i o mid o' kind format ∙ enabled in
      output_enabled i o' on
      ∙ rw (validate_kind-format i mid o' format (validate_kind-stable i o mid kind))
          (validate_format-stable i mid o' format)
]
  where
    ok-eq : (x y : OutputConfig) → ◌≡◌ {A = Result ConfigError OutputConfig} (ok x) (ok y) → x ≡ y
    ok-eq x y e = cc

validate_outputs-stable :
    (os os' : List OutputConfig) (i : ℕ)
    → validate_outputs i os ≡ ok os'
    → validate_outputs i os' ≡ ok os'
unfolding validate_outputs
validate_outputs-stable [] os' i h = ground arith
validate_outputs-stable (o ∷ os) os' i h =
    let (o', one, later) = bind-eq-ok (validate_output i o) _ h in
    let (rest, more, done) = bind-eq-ok (validate_outputs (suc i) os) _ later in
    ground (arith, validate_output-stable i o o' one, validate_outputs-stable os rest (suc i) more)

validate_alerts-stable :
    (u : Unicode) (a a' : AlertsConfig) → validate_alerts u a ≡ ok a' → validate_alerts u a' ≡ ok a'
unfolding validate_alerts
validate_alerts-stable u a a' h = ground (arith, validate_retry-stable a.retry a'.retry)

-- What `Validate` returns is accepted when it is validated again, and nothing is changed the second
-- time: every correction gives a value that passes.
pub validate-stable : (u : Unicode) (c c' : Config) → validate u c ≡ ok c' → validate u c' ≡ ok c'
unfolding validate
validate-stable u c c' h =
    let (redis, h1, k1) = bind-eq-ok (validate_redis c.redis) _ h in
    let (log, h2, k2) = bind-eq-ok (validate_log u c.log) _ k1 in
    let (outputs, h3, k3) = bind-eq-ok (validate_outputs 0 c.outputs) _ k2 in
    let (metrics, h4, k4) = bind-eq-ok (validate_metrics c.metrics) _ k3 in
    let (alerts, h5, k5) = bind-eq-ok (validate_alerts u c.alerts) _ k4 in
    let (sentry, h6, k6) = bind-eq-ok (validate_sentry c.sentry) _ k5 in
    ground (
      arith,
      validate_redis-stable c.redis redis h1,
      validate_log-stable u c.log log h2,
      validate_outputs-stable c.outputs outputs 0 h3,
      validate_metrics-stable c.metrics metrics h4,
      validate_alerts-stable u c.alerts alerts h5,
      validate_sentry-stable c.sentry sentry h6,
      fix_pipeline-stable c.pipeline,
      fix_role_check-stable c.role_check,
    )
