-- ===== src/App/Start.antt =====
-- internal/app/app.go: what `Run` does before it starts its goroutines, in its order, and
-- `buildRoleChecker`. The libraries it calls are parameters.
use redis_watcher.Base.{Bool, true, List, [], map, Option, none, some, ◌≡◌, ◌⊎◌}
use redis_watcher.Base.Bytes.{Bytes}
use redis_watcher.Base.Results.{Result, ok, err, wrap, ◌>>=◌}
use redis_watcher.Base.Tests.{if◌then◌else◌}
use redis_watcher.Alert.Engine.{Engine}
use redis_watcher.App.{BuildError, some_of, size, build_outputs, build_alert_engine}
use redis_watcher.App.Build.{enabled_kinds}
use redis_watcher.App.Compiles.{FirstRefused}
use redis_watcher.App.Wiring.{wire_metrics}
use redis_watcher.Config.{Config, ignored_set}
use redis_watcher.Config.Env.{Env, File, LoadError, load}
use redis_watcher.Go.Int.{ℤ}
use redis_watcher.Go.Text.{Unicode}
use redis_watcher.Logging.{Logger, LogError, build}
use redis_watcher.Metrics.Queues.{QueueRef}
use redis_watcher.Monitor.Client.{Client, new_client}
use redis_watcher.Base.Lists.{All}
use redis_watcher.Output.{Consumer, new_consumer}
use redis_watcher.Output.Sinks.{Sink, sink_name}
use redis_watcher.Role.{Checker}
use redis_watcher.Sentry.{ClientOptions, SentryError, sdk_failed, client_options, init}
use redis_watcher.Role

-- The errors that `Run` returns.
pub data StartError : Type 0 where
  load_failed : LoadError → StartError
  logger_failed : LogError → StartError
  sentry_failed : SentryError → StartError
  outputs_failed : BuildError → StartError
  alerts_failed : Bytes → StartError
  register_failed : Bytes → StartError

-- The parts that are handed to the goroutines.
pub record Started : Type 0 where
  pub logger : Logger
  pub sentry : Option ClientOptions
  pub outputs : Option (List (Sink × Consumer))
  pub alerts : Option Engine
  pub monitor : Client
  pub queues : List QueueRef
  pub checker : Option Checker
  pub ignored : List Bytes

unfoldable pub monitor_of : Config → Client
monitor_of c =
    new_client
      (record {
        read_timeout = c.redis.read_timeout;
        backoff_min = c.redis.backoff_min;
        backoff_max = c.redis.backoff_max;
      })
      (size c.pipeline.event_buffer) c.pipeline.drop_on_full

-- `buildRoleChecker`; its sink is the registry, which takes probe metrics.
unfoldable pub build_role_checker : Config → Option Checker
build_role_checker c =
    if c.role_check.enabled
    then some (
        Role.new
          (record {
            username = c.redis.username;
            password = c.redis.password;
            dial_timeout = c.role_check.dial_timeout;
            read_timeout = c.role_check.read_timeout;
            interval = c.role_check.interval;
            allow_replica = c.role_check.allow_replica;
          })
          Role.probe_sink)
    else none

abbrev pub consumers_of : Option (List (Sink × Consumer)) → List (Sink × Consumer)
consumers_of none = []
consumers_of (some cs) = cs

module _ (u : Unicode) (sdk : ClientOptions → Option Bytes)
    (compile : Bytes → Option (Bytes → Bool)) (register : List QueueRef → Option Bytes)
    (version : Bytes) where
  abbrev assemble :
      Config
      → Logger
      → Option ClientOptions
      → Option (List (Sink × Consumer))
      → Option Engine
      → List QueueRef
      → Started
  assemble c logger sentry outputs alerts queues = record {
    logger = logger;
    sentry = sentry;
    outputs = outputs;
    alerts = alerts;
    monitor = monitor_of c;
    queues = queues;
    checker = build_role_checker c;
    ignored = ignored_set u c.filter.ignored_commands;
  }

  -- The answer to the registration at the end of `wireMetrics`.
  abbrev answer_to : List QueueRef → Option Bytes → Result StartError (List QueueRef)
  answer_to queues none = ok queues
  answer_to queues (some e) = err (register_failed e)

  -- What follows the outputs and the engine.
  abbrev finish :
      Config
      → Logger
      → Option ClientOptions
      → Option (List (Sink × Consumer))
      → Option Engine
      → Result StartError Started
  finish c logger sentry outputs alerts =
      let queues = wire_metrics (monitor_of c) (consumers_of outputs) alerts in
      answer_to queues (register queues) >>= λ qs. ok (assemble c logger sentry outputs alerts qs)

  -- `Run` with the loaded configuration.
  unfoldable pub start_config : Config → Result StartError Started
  start_config c = wrap logger_failed (build u c.log) >>= λ logger.
      wrap sentry_failed (init sdk c.sentry version) >>= λ sentry.
      wrap outputs_failed (build_outputs c) >>= λ outputs.
      wrap alerts_failed (build_alert_engine u compile c) >>= λ alerts.
      finish c logger sentry outputs alerts

  unfoldable pub start : (Bytes → Option ℤ) → Env → File → Result StartError Started
  unfolding start_config
  start parse_duration env file =
      wrap load_failed (load u parse_duration env file) >>= λ c. start_config c

  -- What can still go wrong after the configuration is loaded: the SDK refuses its options, where
  -- Sentry is on; a pattern does not compile, where alerts are; Prometheus refuses the collector.
  abbrev pub Outside : Config → StartError → Type 0
  Outside c e =
      ((x : Bytes) × (e ≡ sentry_failed (sdk_failed x))
        × (c.sentry.enabled ≡ true)
        × (sdk (client_options c.sentry version) ≡ some x))
      ⊎ ((x : Bytes) × (e ≡ alerts_failed x)
          × (c.alerts.enabled ≡ true)
          × FirstRefused compile c.alerts.patterns x)
      ⊎ ((x : Bytes) × (queues : List QueueRef) × (e ≡ register_failed x)
          × (register queues ≡ some x))

  -- What the goroutines are given: a new consumer for each enabled output, with the sink of its type,
  -- and Sentry's options exactly where it is enabled.
  abbrev pub Ready : Config → Started → Type 0
  Ready c s =
      ((cs : List (Sink × Consumer)) × (s.outputs ≡ some_of cs)
        × (map (λ x. sink_name x.0) cs ≡ enabled_kinds c.outputs)
        × All (λ x. x.1 ≡ new_consumer (size c.pipeline.consumer_buffer) c.pipeline.drop_on_full)
            cs)
      × (s.sentry ≡ (if c.sentry.enabled then some (client_options c.sentry version) else none))
