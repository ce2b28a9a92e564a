-- ===== src/Alert/Limiter.antt =====
-- `rateLimitAllow` of internal/alert/alert.go. Instants are nanoseconds of the monotonic clock.
pub mod Laws
use redis_watcher.Base.{
  ℕ, suc, zero, ◌+◌, Bool, true, false, ◌||◌, not, List, [], ◌∷◌, ◌++◌, Option, none, some,
}
use redis_watcher.Base.Bytes.{Bytes}
use redis_watcher.Base.Dict.{lookup, insert}
use redis_watcher.Base.Tests.{ltb, leb, if◌then◌else◌}
use redis_watcher.Event.{Event}
use redis_watcher.Go.Int.{ℤ, pos, negsuc}

pub record Bucket : Type 0 where
  pub window_start : ℕ
  pub count : ℕ

abbrev pub Rates : Type 0
Rates = List (Bytes × Bucket)

-- The engine's three settings of the limit.
pub record Limit : Type 0 where
  pub enabled : Bool
  pub window : ℤ
  pub max_alerts : ℤ

-- `!e.rateLimit || e.rateMaxAlerts <= 0 || e.rateWindow <= 0`, with the two numbers where the
-- limit is on.
abbrev positive : ℤ → Option ℕ
positive (pos zero) = none
positive (pos (suc n)) = some (suc n)
positive (negsuc _) = none

unfoldable pub active_limit : Limit → Option (ℕ × ℕ)
active_limit l = if not l.enabled then none else elim (positive l.max_alerts) [
  | none ↦ none
  | some most ↦ elim (positive l.window) [ none ↦ none | some window ↦ some (window, most) ]
]

abbrev pub fresh : ℕ → Bucket
fresh now = record { window_start = now; count = 1 }

-- The bucket of one key: what it is afterwards, and whether the alert may pass.
unfoldable pub bucket_step : ℕ → ℕ → ℕ → Option Bucket → Bucket × Bool
bucket_step window most now none = (fresh now, true)
bucket_step window most now (some b) =
    if ltb (b.window_start + window) now
    then (fresh now, true)
    else if leb most b.count
    then (b, false)
    else (record b { count = b.count + 1 }, true)

unfoldable pub rate_key : Event → Bytes
rate_key ev = ev.command ++ b'|' ∷ ev.source.ip

-- `rateLimitAllow` under its lock.
unfoldable pub allow_key : ℕ → ℕ → Rates → Bytes → ℕ → Rates × Bool
allow_key window most rates key now =
    let (b, passed) = bucket_step window most now (lookup key rates) in (insert key b rates, passed)

unfoldable pub rate_limit_allow : Limit → Rates → Event → ℕ → Rates × Bool
rate_limit_allow l rates ev now = elim (active_limit l) [
  | none ↦ (rates, true)
  | some (window, most) ↦ allow_key window most rates (rate_key ev) now
]
