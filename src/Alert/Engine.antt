-- ===== src/Alert/Engine.antt =====
-- The engine of internal/alert/alert.go: `New`, `Submit`, `match` and `handle`. The regular
-- expressions are Go's package regexp, given by the function `compile`; what the channels do is
-- given for each of them as in Retry.
pub mod Laws
pub mod Limits
pub mod Valid
pub mod Reach
pub mod Turns
use redis_watcher.Base.{
  ℕ, suc, zero, ◌+◌, ◌%◌, ◌^◌, ◌<◌, Bool, true, false, not, ◌&&◌, List, [], ◌∷◌, ◌++◌, map, Option,
  none, some,
}
use redis_watcher.Base.Bytes.{Bytes, codes, eq_bytes, is_empty}
use redis_watcher.Base.Lists.{length, any}
use redis_watcher.Base.Results.{Result, ok, err, ◌>>=◌}
use redis_watcher.Base.Tests.{ltb, leb, if◌then◌else◌}
use redis_watcher.Alert.Limiter.{Limit, Rates, rate_limit_allow}
use redis_watcher.Alert.Retry.{
  SendError, Reporter, Effect, RetryPolicy, World, has_reporter, is_retry_reporter, send_one,
}
use redis_watcher.Event.{Time, Event, full_command, command_line}
use redis_watcher.Go.Int.{gt_ℤ, default_time, ℤ, pos, negsuc}
use redis_watcher.Go.Text.{Unicode, to_upper, trim_space}

-- A compiled expression: its text and its test.
pub record Pattern : Type 0 where
  pub text : Bytes
  pub match_string : Bytes → Bool

pub record Options : Type 0 where
  pub channels : List Bytes
  pub commands : List Bytes
  pub patterns : List Bytes
  pub ignored_source_ips : List Bytes
  pub limit : Limit
  pub retry_max_attempts : ℤ
  pub retry_initial_backoff : ℤ
  pub retry_max_backoff : ℤ
  pub buffer_size : ℤ
  pub drop_on_full : Bool
  pub send_timeout : ℤ
  pub reporter : Reporter

pub record Engine : Type 0 where
  pub channels : List Bytes
  pub commands : List Bytes
  pub patterns : List Pattern
  pub ignored_ips : List Bytes
  pub limit : Limit
  pub policy : RetryPolicy
  pub rates : Rates
  pub queue : List Event
  pub capacity : ℕ
  pub timeout : ℤ
  pub drop : Bool
  pub dropped : ℕ

-- `if v <= 0 { v = d }`
abbrev pub default_count : ℤ → ℕ → ℕ
default_count (pos zero) d = d
default_count (pos (suc n)) d = suc n
default_count (negsuc _) d = d

-- The two corrections of the initial backoff.
unfoldable pub clamp_initial : ℤ → ℤ → ℤ
clamp_initial initial cap =
    let floor = if gt_ℤ (pos 0) initial then pos 0 else initial in
    if gt_ℤ cap (pos 0) && gt_ℤ floor cap then cap else floor

abbrev pub case_insensitive : Bytes → Bytes
case_insensitive p = codes "(?i)" ++ p

unfoldable pub compile_all :
    (Bytes → Option (Bytes → Bool)) → List Bytes → Result Bytes (List Pattern)
compile_all compile [] = ok []
compile_all compile (p ∷ ps) = elim (compile (case_insensitive p)) [
  | none ↦ err p
  | some test ↦ compile_all compile ps >>= λ rest.
      ok (record { text = case_insensitive p; match_string = test } ∷ rest)
]

-- An error carries the pattern that does not compile.
unfoldable pub new : Unicode → (Bytes → Option (Bytes → Bool)) → Options → Result Bytes Engine
unfolding clamp_initial
new u compile o = compile_all compile o.patterns >>= λ regexps. ok (record {
  channels = o.channels;
  commands = map (λ c. to_upper u (trim_space u c)) o.commands;
  patterns = regexps;
  ignored_ips = o.ignored_source_ips;
  limit = o.limit;
  policy = record {
    retry_max = default_count o.retry_max_attempts 1;
    initial_backoff = clamp_initial o.retry_initial_backoff o.retry_max_backoff;
    max_backoff = o.retry_max_backoff;
    reporter = o.reporter;
  };
  rates = [];
  queue = [];
  capacity = default_count o.buffer_size 1024;
  timeout = default_time o.send_timeout (pos 10_000_000_000);
  drop = o.drop_on_full;
  dropped = 0;
})

-- `Submit`: the engine, and whether the drop is reported. `none` where the send on a full queue
-- blocks.
unfoldable pub submit : Event → Engine → Option (Engine × Bool)
submit ev e =
    if ltb (length e.queue) e.capacity
    then some (record e { queue = e.queue ++ ev ∷ [] }, false)
    else if e.drop
    then some (record e { dropped = (e.dropped + 1) % 2 ^ 64 }, is_retry_reporter e.policy.reporter)
    else none

abbrev pub contains : List Bytes → Bytes → Bool
contains set s = any (eq_bytes s) set

unfoldable pub first_match : List Pattern → Bytes → Option Bytes
first_match [] line = none
first_match (p ∷ ps) line =
    if p.match_string line then some (codes "pattern match: " ++ p.text) else first_match ps line

-- The reason, where a rule matches.
unfoldable pub match : Engine → Event → Option Bytes
match e ev =
    if contains e.commands ev.command
    then some (codes "suspicious command: " ++ full_command ev)
    else if is_empty e.patterns
    then none
    else first_match e.patterns (command_line ev)

pub record Alert : Type 0 where
  pub timestamp : Time
  pub command : Bytes
  pub source : Bytes
  pub db : ℤ
  pub reason : Bytes
  pub event : Event

unfoldable pub alert_of : Event → Bytes → Alert
alert_of ev reason = record {
  timestamp = ev.timestamp;
  command = full_command ev;
  source = ev.source.ip ++ b':' ∷ ev.source.port;
  db = ev.db;
  reason = reason;
  event = ev;
}

-- One delivery: the channel, what was done, and the error it ended with.
pub record Sent : Type 0 where
  pub channel : Bytes
  pub effects : List Effect
  pub error : Option SendError

-- What `handle` does besides the rate table: reporter calls, and the alert sent to each channel in
-- a transaction that is finished with the first error.
pub data Action : Type 0 where
  suspicious_observed : Bytes → Bytes → Action
  rate_limited : Bytes → Action
  dispatched : Alert → List Sent → Option SendError → Action

unfoldable pub send_all : RetryPolicy → (Bytes → World) → List Bytes → List Sent
send_all p world [] = []
send_all p world (ch ∷ chs) =
    let (es, e) = send_one p (world ch) in
    record { channel = ch; effects = es; error = e } ∷ send_all p world chs

unfoldable pub first_error : List Sent → Option SendError
first_error [] = none
first_error (s ∷ ss) = elim s.error [ none ↦ first_error ss | some e ↦ some e ]

unfoldable pub dispatch : Engine → (Bytes → World) → Event → Bytes → Action
dispatch e world ev reason =
    let sent = send_all e.policy world e.channels in
    dispatched (alert_of ev reason) sent (first_error sent)

-- The reporter's methods behind their guards.
abbrev pub observe : Engine → Event → List Action
observe e ev =
    if has_reporter e.policy.reporter then suspicious_observed ev.command ev.source.ip ∷ [] else []

abbrev pub record_rate_limited : Engine → Event → List Action
record_rate_limited e ev =
    if is_retry_reporter e.policy.reporter then rate_limited ev.command ∷ [] else []

-- `handle` at the instant `now`.
unfoldable pub handle : Engine → (Bytes → World) → ℕ → Event → Engine × List Action
handle e world now ev = elim (match e ev) [
  | none ↦ (e, [])
  | some reason ↦
      if contains e.ignored_ips ev.source.ip
      then (e, [])
      else (let (rates, allowed) = rate_limit_allow e.limit e.rates ev now in
          let e' = record e { rates = rates } in
          if allowed
          then (e', observe e ev ++ dispatch e world ev reason ∷ [])
          else (e', observe e ev ++ record_rate_limited e ev))
]

-- One turn of `Run`: the oldest event of the queue is handled.
unfoldable pub run_one : Engine → (Bytes → World) → ℕ → Option (Engine × List Action)
run_one e world now = elim e.queue [
  | [] ↦ none
  | ev ∷ rest ↦ some (handle (record e { queue = rest }) world now ev)
]
