-- ===== src/Metrics/Registered.antt =====
-- internal/metrics/metrics.go: the registration of the vectors by `New`. The registry of Prometheus
-- is the parameter accepts: whether it takes a collector beside those it has. It refuses a name that
-- is there already, and a descriptor that is malformed.
use redis_watcher.Base.{Bool, true, not, ◌&&◌, List, [], ◌∷◌, ◌++◌, Option, none, some}
use redis_watcher.Base.Bytes.{Bytes, eq_bytes}
use redis_watcher.Base.Lists.{any}
use redis_watcher.Base.Tests.{if◌then◌else◌}
use redis_watcher.Metrics.Vectors.{
  Descriptor, command_metrics, error_metrics, output_metrics, alert_metrics, role_metrics,
  connectivity_metrics, build_metrics,
}

abbrev pub taken : List Bytes → Bytes → Bool
taken names n = any (eq_bytes n) names

abbrev pub distinct : List Bytes → Bool
distinct [] = true
distinct (n ∷ names) = not (taken names n) && distinct names

abbrev pub names_of : List Descriptor → List Bytes
names_of [] = []
names_of (d ∷ ds) = d.name ∷ names_of ds

module _ (accepts : List Bytes → Bytes → Bool) where
  -- `MustRegister`, onto the names that are there; `none` where it panics.
  unfoldable pub must_register : List Bytes → List Bytes → Option (List Bytes)
  must_register seen [] = some seen
  must_register seen (n ∷ names) =
      if accepts seen n then must_register (seen ++ n ∷ []) names else none

  abbrev then_register : List Bytes → Option (List Bytes) → Option (List Bytes)
  then_register names none = none
  then_register names (some seen) = must_register seen names

  -- The registrations of `New`, in order; the last are those of the process collector.
  unfoldable pub register_all : List Bytes → Option (List Bytes)
  unfolding must_register
  register_all process = then_register process (
      then_register (names_of build_metrics) (
        then_register (names_of connectivity_metrics) (
          then_register (names_of role_metrics) (
            then_register (names_of alert_metrics) (
              then_register (names_of output_metrics) (
                then_register (names_of error_metrics)
                  (must_register [] (names_of command_metrics))))))))
