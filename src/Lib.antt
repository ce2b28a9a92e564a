-- ===== src/Lib.antt =====
-- Redis-Watcher follows the commands that a Redis server runs, by its MONITOR stream, and raises
-- alerts. This library models the program's logic and proves what makes it correct.
--
-- The parts and their files:
--   internal/event/event.go    Event: the audit event and the two texts it has, `FullCommand` and
--                              `CommandLine`. Event/Quoting reads command lines back.
--   internal/resp/resp.go      Resp: `WriteCommand`, `ReadSimpleString`, `ReadBulkString` and
--                              `AuthArgs` on a connection `Conn`, which holds the bytes that arrive,
--                              those that were sent, and which writes the peer accepts.
--   internal/monitor/parser.go Monitor/Parser: `Parse` and its helpers, one definition for each
--                              loop. Monitor/Parser/Render is what Redis prints, the description
--                              that the parser is compared with.
--   internal/monitor/client.go Monitor/Client: `readLoop` on the lines that arrive, the reconnecting
--                              `Run`, and `redact`. Monitor/Client/Session: `runOnce`, from the
--                              connection's AUTH and MONITOR to its last line.
--                              Monitor/Client/Waiting: `readLoop` behind sends that wait.
--   internal/alert/alert.go    Alert/Limiter: `rateLimitAllow`. Alert/Retry: `sendOne`,
--                              `nextBackoff` and `sleepWithContext`. Alert/Engine: `New`, `Submit`,
--                              `match`, `handle` and a turn of `Run`; Alert/Engine/Reach: any
--                              interleaving of these; Alert/Engine/Turns: turns in a row.
--                              Alert/Rendered: `Renderer`.
--   internal/alert, channels   Alert/Webhook, Alert/Telegram and Alert/Pushgateway: the constructor
--                              and `Send` of each file of that name. Alert/Delivered runs the
--                              engine's attempts through the first two.
--   internal/output/output.go  Output: a consumer's `Submit`, `writeOne`, turn of `Run` and
--                              `drainAfterShutdown`, and the fan-out `Dispatch`. Output/Queue has
--                              the relation of its runs. Output/Encode: `encode` and `quoteText`.
--   internal/output, sinks     Output/Network: `Write` and `Close` of network.go, with
--                              Output/Network/Protocol for any sequence of them. Output/Sinks: the
--                              three sinks, file.go and stdout.go included, as the consumer has them.
--                              Output/Delivery: a consumer's turns with its sink.
--   internal/role/role.go      Role: the checker, its subscriptions and its probe. Role/Wait: `Wait`
--                              as a step relation, in which a waiter, the probes and other
--                              subscribers take turns.
--   internal/config/config.go  Config: the settings and their defaults. Config/Validate: `Validate`,
--                              one definition for each part. Config/Env: `applyEnv` and `Load`.
--   internal/metrics           Metrics: the registry of metrics.go, its own state and the operations
--                              on Prometheus that its methods make, which Metrics/Vectors describes
--                              with their registration. Metrics/Methods: the methods that touch no
--                              state of its own. Metrics/Halves: the gauges, with `SetOutputFailing`
--                              in two steps. Metrics/Queues: collectors.go. Metrics/Server: the
--                              patterns of server.go; its readiness probe stands in Metrics.
--   internal/logging           Logging: `Build` and `parseLevel` of logging.go.
--   internal/sentryx           Sentry: `Init`, `Capture`, `Enabled` and `WrapHTTP` of sentryx.go.
--   internal/app/app.go        App: the dispatcher, `buildOutputs` and `buildAlertEngine`.
--                              App/Wiring: `wireMetrics`. App/Start: `buildRoleChecker` and `Run` up
--                              to its first goroutine. App/Shutdown: its goroutines until it returns.
--                              App/Pipeline joins the connection, the client, the parser, the
--                              dispatcher, the consumers with their sinks and the alert engine;
--                              App/Health the readiness probe and the parts that report to it.
--   Base and Go are shared: bytes, lists, maps and results, and the parts of Go's packages strings
--   and strconv that the program calls, written out.
-- The monitor client hands each line to the parser and sends the event to the dispatcher, which
-- puts it into every output's queue and into the alert engine's, unless its command is ignored. A
-- consumer writes one event at a time to its sink; the engine handles one event at a time, matches
-- it against the rules, asks the limit and sends the alert to each channel with retries. The role
-- checker says whether the client may be connected at all. The components tell the registry what
-- happens, and /readyz answers from it. The configuration reaches the other parts only after
-- `Validate`.
--
-- How state and outside code are modelled: a component is a record and every operation gives the
-- next one; a blocking send on a full queue is `none`, and an
-- end of its own in `readLoop`. Effects (attempts, waits, calls of the
-- metrics, operations on Prometheus, reports to Sentry) are lists, in order. What is not in the
-- repository is an argument: what a dialer, a socket or a file answers, what net/http answers a
-- request (`Http`), what the Prometheus pusher and the Sentry SDK answer, whether Prometheus accepts
-- a name or a label, which patterns ServeMux takes, whether a wait is cut off or a deadline taken,
-- Unicode's tables (`Unicode`), the compiler of regular expressions, the encoders of JSON, the YAML
-- decoder, `time.Format`, `time.ParseDuration` and the canonical form of a header's name. Instants are
-- nanoseconds of the monotonic clock. Machine integers keep their range: `parse_int` refuses what
-- does not fit in 64 bits, counters and a doubled backoff wrap around.
-- Loops are structural, or count the rounds that are left: `send_loop` takes the number of attempts
-- allowed, and `itoa` a fuel above the number itself, which is more than the number of its digits.
--
-- Not modelled: log lines, tracing spans and `Recover`, which only hand arguments on; the serving of
-- HTTP and the closing of the channels, which are left to libraries; the two sampling rates of
-- Sentry, which are floating-point numbers; the exit at a second signal; cmd/redis-watcher, which
-- reads flags and calls `Run`; the helper of tests internal/sentryxtest. A read's deadline and a
-- connection closed by the context or the gate are an end of the stream.
pub mod Alert
pub mod App
pub mod Base
pub mod Config
pub mod Event
pub mod Go
pub mod Logging
pub mod Metrics
pub mod Monitor
pub mod Output
pub mod Resp
pub mod Role
pub mod Sentry
