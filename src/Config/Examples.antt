-- ===== src/Config/Examples.antt =====
-- Witnesses and runs of the configuration.
use redis_watcher.Base.{true, false, [], ◌∷◌, Option, none, ◌≡◌, refl}
use redis_watcher.Base.Bytes.{Bytes, codes, eq_bytes}
use redis_watcher.Base.Results.{ok}
use redis_watcher.Go.Int.{ℤ, pos}
use redis_watcher.Go.Text.{Unicode, to_lower, lower_byte}
use redis_watcher.Config.{Config, OutputConfig, default}
use redis_watcher.Config.Validate.{
  validate, validate_redis, validate_log, validate_outputs, validate_output, validate_kind,
  validate_format, validate_metrics, validate_retry, validate_urls, validate_alerts,
  validate_sentry, fix_pipeline, fix_role_check,
}
use redis_watcher.Config.Stable.{validate-stable}
use redis_watcher.Config.Env.{
  Env, readable, load, decode, apply_env, env_alerts, str, bool_var, int_var, slice_var, dur_var,
}

abbrev tables : Unicode
tables = record { map_upper = λ s. s; map_lower = λ s. s; trim_func = λ s. s }

abbrev file_output : OutputConfig
file_output = record {
  kind = codes "file";
  enabled = true;
  format = [];
  path = codes "/tmp/x";
  address = [];
  timeout = pos 0;
  keepalive = pos 0;
  rotation = record {
    max_size_mb = pos 0;
    max_backups = pos 0;
    max_age_days = pos 0;
    compress = false;
    local_time = false;
  };
}

abbrev given : Config
given = record default {
  outputs = file_output ∷ [];
  alerts = record default.alerts {
    enabled = true;
    retry = record { max_attempts = pos 0; initial_backoff = pos 2; max_backoff = pos 5 };
  };
}

abbrev accepted : Config
accepted = record default {
  outputs =
      record file_output {
        format = codes "json";
        rotation = record file_output.rotation { max_size_mb = pos 100 };
      }
      ∷ [];
  alerts = record default.alerts {
    enabled = true;
    retry = record { max_attempts = pos 1; initial_backoff = pos 2; max_backoff = pos 5 };
  };
}

given-accepted : validate tables given ≡ ok accepted
unfolding validate validate_redis validate_log validate_outputs validate_output validate_kind
    validate_format validate_metrics validate_retry validate_urls validate_alerts validate_sentry
    fix_pipeline fix_role_check eq_bytes to_lower lower_byte
given-accepted = refl

validate-stable_example : validate tables accepted ≡ ok accepted
validate-stable_example = validate-stable tables given accepted given-accepted

abbrev no_variables : Env
no_variables _ = none

abbrev no_duration : Bytes → Option ℤ
no_duration _ = none

loaded : load tables no_duration no_variables (readable (λ _. ok given)) ≡ ok accepted
unfolding load decode apply_env env_alerts str bool_var int_var slice_var dur_var validate
    validate_redis validate_log validate_outputs validate_output validate_kind validate_format
    validate_metrics validate_retry validate_urls validate_alerts validate_sentry fix_pipeline
    fix_role_check eq_bytes to_lower lower_byte
loaded = refl
