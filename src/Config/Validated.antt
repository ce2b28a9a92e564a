-- ===== src/Config/Validated.antt =====
-- What the other parts rely on in a configuration that `Validate` has accepted.
use redis_watcher.Base.{
  ℕ, suc, true, false, List, [], ◌∷◌, ◌++◌, ◌≡◌, ◌⊎◌, inl, inr, arith, ap, ◌∙◌, sym,
}
use mathlib.Core.Path.{subst}
use redis_watcher.Base.Bytes.{Bytes, codes, eq_bytes, eq_bytes_iff}
use redis_watcher.Base.Lists.{All}
use redis_watcher.Base.Results.{Result, ok, err, bind-eq-ok}
use redis_watcher.Base.Tests.{Bool-cases}
use redis_watcher.Alert.Engine.{clamp_initial, default_count}
use redis_watcher.Event.{Time, Event}
use redis_watcher.Go.Int.{pos, gt_ℤ}
use redis_watcher.Go.Text.{Unicode, to_lower, lower_byte}
use redis_watcher.Output.Encode.{EncodeError, marshal_failed, encode, json_line}
use redis_watcher.Config.{
  Config, RedisConfig, OutputConfig, RetryConfig, AlertsConfig, PipelineConfig,
}
use redis_watcher.Config.Validate.{
  ConfigError, validate, validate_redis, validate_log, validate_kind, validate_format,
  validate_output, validate_outputs, validate_metrics, validate_retry, validate_alerts,
  validate_sentry, fix_pipeline,
}
use redis_watcher.Config.Stable.{output_enabled}

-- The parts of an accepted configuration.
pub validate-parts :
    (u : Unicode) (c c' : Config)
    → validate u c ≡ ok c'
    → (validate_redis c.redis ≡ ok c'.redis)
      × (validate_outputs 0 c.outputs ≡ ok c'.outputs)
      × (validate_alerts u c.alerts ≡ ok c'.alerts)
      × (c'.pipeline ≡ fix_pipeline c.pipeline)
unfolding validate
validate-parts u c c' h =
    let (redis, h1, k1) = bind-eq-ok (validate_redis c.redis) _ h in
    let (log, h2, k2) = bind-eq-ok (validate_log u c.log) _ k1 in
    let (outputs, h3, k3) = bind-eq-ok (validate_outputs 0 c.outputs) _ k2 in
    let (metrics, h4, k4) = bind-eq-ok (validate_metrics c.metrics) _ k3 in
    let (alerts, h5, k5) = bind-eq-ok (validate_alerts u c.alerts) _ k4 in
    let (sentry, h6, k6) = bind-eq-ok (validate_sentry c.sentry) _ k5 in
    (ground (arith, h1, k6), ground (arith, h3, k6), ground (arith, h5, k6), ground (arith, k6))

pub validate-log_sentry :
    (u : Unicode) (c c' : Config)
    → validate u c ≡ ok c'
    → (validate_log u c.log ≡ ok c'.log) × (validate_sentry c.sentry ≡ ok c'.sentry)
unfolding validate
validate-log_sentry u c c' h =
    let (redis, h1, k1) = bind-eq-ok (validate_redis c.redis) _ h in
    let (log, h2, k2) = bind-eq-ok (validate_log u c.log) _ k1 in
    let (outputs, h3, k3) = bind-eq-ok (validate_outputs 0 c.outputs) _ k2 in
    let (metrics, h4, k4) = bind-eq-ok (validate_metrics c.metrics) _ k3 in
    let (alerts, h5, k5) = bind-eq-ok (validate_alerts u c.alerts) _ k4 in
    let (sentry, h6, k6) = bind-eq-ok (validate_sentry c.sentry) _ k5 in
    (ground (arith, h2, k6), ground (arith, h6, k6))

validate_redis-bounds :
    (r r' : RedisConfig)
    → validate_redis r ≡ ok r'
    → (gt_ℤ r'.backoff_min (pos 0) ≡ true) × (gt_ℤ r'.backoff_min r'.backoff_max ≡ false)
unfolding validate_redis
validate_redis-bounds r r' h = (ground arith, ground arith)

fix_pipeline-bounds :
    (p : PipelineConfig)
    → (gt_ℤ (fix_pipeline p).event_buffer (pos 0) ≡ true)
      × (gt_ℤ (fix_pipeline p).consumer_buffer (pos 0) ≡ true)
unfolding fix_pipeline
fix_pipeline-bounds p = (ground arith, ground arith)

-- An accepted configuration has reconnect delays that are positive and in order, and buffers of at
-- least one event.
pub validate-bounds :
    (u : Unicode) (c c' : Config)
    → validate u c ≡ ok c'
    → (gt_ℤ c'.redis.backoff_min (pos 0) ≡ true)
      × (gt_ℤ c'.redis.backoff_min c'.redis.backoff_max ≡ false)
      × (gt_ℤ c'.pipeline.event_buffer (pos 0) ≡ true)
      × (gt_ℤ c'.pipeline.consumer_buffer (pos 0) ≡ true)
validate-bounds u c c' h =
    let (r, o, a, p) = validate-parts u c c' h in
    let (low, high) = validate_redis-bounds c.redis c'.redis r in
    let (events, consumers) = fix_pipeline-bounds c.pipeline in
    (
      low,
      high,
      ap (λ x. gt_ℤ x.event_buffer (pos 0)) p ∙ events,
      ap (λ x. gt_ℤ x.consumer_buffer (pos 0)) p ∙ consumers,
    )

validate_alerts-retry :
    (u : Unicode) (a a' : AlertsConfig)
    → a'.enabled ≡ true
    → validate_alerts u a ≡ ok a'
    → validate_retry a.retry ≡ ok a'.retry
unfolding validate_alerts
validate_alerts-retry u a a' on h = ground arith

validate_retry-kept :
    (r r' : RetryConfig)
    → validate_retry r ≡ ok r'
    → (clamp_initial r'.initial_backoff r'.max_backoff ≡ r'.initial_backoff)
      × (pos (default_count r'.max_attempts 1) ≡ r'.max_attempts)
unfolding validate_retry clamp_initial
validate_retry-kept r r' h = (ground arith, ground arith)

-- With alerts on, an accepted configuration's retry settings are taken by the alert engine as they
-- are: neither its two corrections of the initial backoff nor its default of one attempt applies.
pub validate-retry :
    (u : Unicode) (c c' : Config)
    → validate u c ≡ ok c'
    → c'.alerts.enabled ≡ true
    → (clamp_initial c'.alerts.retry.initial_backoff c'.alerts.retry.max_backoff
        ≡ c'.alerts.retry.initial_backoff)
      × (pos (default_count c'.alerts.retry.max_attempts 1) ≡ c'.alerts.retry.max_attempts)
validate-retry u c c' h on =
    let (r, o, a, p) = validate-parts u c c' h in
    validate_retry-kept c.alerts.retry c'.alerts.retry
      (validate_alerts-retry u c.alerts c'.alerts on a)

abbrev HasFormat : OutputConfig → Type 0
HasFormat o = (o.format ≡ codes "json") ⊎ (o.format ≡ codes "text")

validate_format-HasFormat :
    (i : ℕ) (o o' : OutputConfig) → validate_format i o ≡ ok o' → HasFormat o'
unfolding validate_format
validate_format-HasFormat i o o' h =
    ground (arith, eq_bytes_iff o.format (codes "json"), eq_bytes_iff o.format (codes "text"))

-- `encode` fails at this format only where `json.Marshal` fails.
abbrev pub IsKnown : Bytes → Type 0
IsKnown format =
    (u : Unicode) (marshal : Event → Result Bytes Bytes) (format_time : Time → Bytes) (ev : Event)
    (e : EncodeError)
    → encode u marshal format_time ev format ≡ err e
    → (m : Bytes) × (e ≡ marshal_failed m)

json_line-failed :
    (r : Result Bytes Bytes) (e : EncodeError)
    → json_line r ≡ err e
    → (m : Bytes) × (e ≡ marshal_failed m)
json_line-failed (ok b) e h = absurd (ok_err h)
  where
    ok_err : ◌≡◌ {A = Result EncodeError Bytes} (ok (b ++ b'\n' ∷ [])) (err e) → ⊥
    ok_err k = cc
json_line-failed (err m) e h = (m, cc)

json-IsKnown : IsKnown (codes "json")
unfolding encode to_lower lower_byte eq_bytes
json-IsKnown u marshal format_time ev e h = json_line-failed (marshal ev) e h

text-IsKnown : IsKnown (codes "text")
unfolding encode to_lower lower_byte eq_bytes
text-IsKnown u marshal format_time ev e h = absurd (ok_err h)
  where
    ok_err : {b : Bytes} → ◌≡◌ {A = Result EncodeError Bytes} (ok b) (err e) → ⊥
    ok_err k = cc

HasFormat-IsKnown : (o : OutputConfig) → HasFormat o → IsKnown o.format
HasFormat-IsKnown o (inl json) = subst IsKnown (sym json) json-IsKnown
HasFormat-IsKnown o (inr text) = subst IsKnown (sym text) text-IsKnown

validate_output-HasFormat :
    (i : ℕ) (o o' : OutputConfig) → validate_output i o ≡ ok o' → o'.enabled ≡ true → HasFormat o'
validate_output-HasFormat i o o' h on = elim (Bool-cases o.enabled) [
  | inr off ↦ absurd (off_on off)
  | inl enabled ↦
      let (mid, kind, format) =
        bind-eq-ok (validate_kind i o) (validate_format i) (sym (output_enabled i o enabled) ∙ h) in
      validate_format-HasFormat i mid o' format
]
  where
    off_on : o.enabled ≡ false → ⊥
    off_on off = unfold validate_output in ground arith

validate_outputs-IsKnown :
    (os os' : List OutputConfig) (i : ℕ)
    → validate_outputs i os ≡ ok os'
    → All (λ o. o.enabled ≡ true → IsKnown o.format) os'
unfolding validate_outputs
validate_outputs-IsKnown [] [] i h = tt
validate_outputs-IsKnown [] (o ∷ os) i h = absurd (no_outputs h)
  where
    no_outputs : ◌≡◌ {A = Result ConfigError (List OutputConfig)} (ok []) (ok (o ∷ os)) → ⊥
    no_outputs k = cc
validate_outputs-IsKnown (o ∷ os) os' i h =
    let (o', one, later) = bind-eq-ok (validate_output i o) _ h in
    let (rest, more, done) = bind-eq-ok (validate_outputs (suc i) os) _ later in
    let same : (o' ∷ rest) ≡ os' = cc in
    subst (All (λ x. x.enabled ≡ true → IsKnown x.format)) same (
      (λ on. HasFormat-IsKnown o' (validate_output-HasFormat i o o' one on)),
      validate_outputs-IsKnown os rest (suc i) more,
    )

-- No enabled output of an accepted configuration has a format that `encode` does not know: writing
-- an event to it can only fail in `json.Marshal` or in the sink itself.
pub validate-IsKnown :
    (u : Unicode) (c c' : Config)
    → validate u c ≡ ok c'
    → All (λ o. o.enabled ≡ true → IsKnown o.format) c'.outputs
validate-IsKnown u c c' h =
    let (r, o, a, p) = validate-parts u c c' h in validate_outputs-IsKnown c.outputs c'.outputs 0 o
