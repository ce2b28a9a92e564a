-- ===== src/Alert/Examples.antt =====
-- Witnesses and runs of the alert engine.
use redis_watcher.Base.{
  ◌⊎◌, ℕ, suc, zero, ◌*◌, ◌≤◌, Bool, true, false, [], ◌∷◌, ◌++◌, Option, none, some, ◌≡◌, inr, refl,
  arith,
}
use redis_watcher.Base.Bytes.{Bytes, codes, eq_bytes}
use redis_watcher.Base.Dict.{lookup}
use redis_watcher.Base.Lists.{length}
use redis_watcher.Base.Results.{ok}
use redis_watcher.Alert.Limiter.{Rates, active_limit, allow_key, bucket_step, rate_limit_allow}
use redis_watcher.Alert.Limiter.Laws.{request, passes, requests, passes_first_window}
use redis_watcher.Alert.Retry.{SendError, send_failed, retry_reporter, RetryPolicy, World, send_one}
use redis_watcher.Alert.Retry.Endings.{Ends}
use redis_watcher.Alert.Retry.Laws.{send_one_cases}
use redis_watcher.Alert.Retry.Backoff.{waits, schedule, waits-send_one}
use redis_watcher.Alert.Engine.{
  Engine, Options, match, handle, submit, run_one, new, contains, compile_all, clamp_initial,
}
use redis_watcher.Alert.Engine.Laws.{Raises, Silent, handle_cases}
use redis_watcher.Alert.Engine.Limits.{raised, raised-le}
use redis_watcher.Alert.Engine.Reach.{replay, Run, start, taken, turn, Run-IsValid}
use redis_watcher.Alert.Engine.Valid.{IsValid}
use redis_watcher.Event.{Event, full_command}
use redis_watcher.Go.Int.{pos}
use redis_watcher.Go.Text.{Unicode, to_upper, trim_space, trim_left, trim_right, upper_byte}

abbrev key : Bytes
key = codes "CONFIG|::1"

abbrev old_rates : Rates
old_rates = (key, record { window_start = 10; count = 5 }) ∷ []

passes_first_window_example :
    passes 60 2 key old_rates (request key 100 ∷ request key 110 ∷ request key 120 ∷ []) ≡ 2
unfolding requests eq_bytes
passes_first_window_example =
    passes_first_window 60 2 key old_rates 100 (request key 110 ∷ request key 120 ∷ [])
      (inr (record { window_start = 10; count = 5 }, unfold lookup eq_bytes in refl, omega arith))
      (omega arith)

abbrev policy : RetryPolicy
policy = record {
  retry_max = 3;
  initial_backoff = pos 2;
  max_backoff = pos 5;
  reporter = retry_reporter;
}

-- A channel that works at the third attempt, and waits that run their time.
abbrev third : ℕ → Option SendError
third (suc (suc (suc zero))) = none
third _ = some (send_failed [])

abbrev flaky : World
flaky = record { outcome = third; wakes = λ _. true }

send_one_cases_example : Ends flaky 2 1 (send_one policy flaky)
send_one_cases_example = send_one_cases policy flaky 2 refl refl

waits-send_one_example :
    waits (send_one policy flaky).0 ≡ schedule 2 5 0 (length (waits (send_one policy flaky).0))
waits-send_one_example =
    waits-send_one policy flaky 2 5 refl refl (omega arith) (omega arith) (omega arith)

abbrev tables : Unicode
tables = record { map_upper = λ s. s; map_lower = λ s. s; trim_func = λ s. s }

abbrev options : Options
options = record {
  channels = codes "log" ∷ codes "telegram" ∷ [];
  commands = codes "CONFIG" ∷ [];
  patterns = codes "keys" ∷ [];
  ignored_source_ips = codes "10.0.0.1" ∷ [];
  limit = record { enabled = true; window = pos 60; max_alerts = pos 1 };
  retry_max_attempts = pos 3;
  retry_initial_backoff = pos 2;
  retry_max_backoff = pos 5;
  buffer_size = pos 1;
  drop_on_full = true;
  send_timeout = pos 0;
  reporter = retry_reporter;
}

abbrev engine : Engine
engine = record {
  channels = options.channels;
  commands = options.commands;
  patterns = record { text = codes "(?i)keys"; match_string = eq_bytes (codes "KEYS *") } ∷ [];
  ignored_ips = options.ignored_source_ips;
  limit = options.limit;
  policy = policy;
  rates = [];
  queue = [];
  capacity = 1;
  timeout = pos 10_000_000_000;
  drop = true;
  dropped = 0;
}

abbrev compile : Bytes → Option (Bytes → Bool)
compile _ = some (eq_bytes (codes "KEYS *"))

new-engine : new tables compile options ≡ ok engine
unfolding new compile_all clamp_initial to_upper upper_byte trim_space trim_right trim_left
new-engine = refl

abbrev event : Event
event = record {
  timestamp = record { sec = pos 7; nsec = 0 };
  db = pos 0;
  source = record { ip = codes "::1"; port = codes "5" };
  command = codes "CONFIG";
  subcommand = codes "GET";
  args = codes "get" ∷ codes "dir" ∷ [];
}

abbrev reason : Bytes
reason = codes "suspicious command: CONFIG GET"

abbrev world : Bytes → World
world _ = flaky

event-match : match engine event ≡ some reason
unfolding match full_command eq_bytes
event-match = refl

event-passes : (rate_limit_allow engine.limit engine.rates event 100).1 ≡ true
unfolding rate_limit_allow active_limit allow_key bucket_step lookup
event-passes = refl

event-heard : contains engine.ignored_ips event.source.ip ≡ false
unfolding eq_bytes
event-heard = refl

handle_cases_example : Raises engine world 100 event ⊎ Silent engine world 100 event
handle_cases_example = handle_cases engine world 100 event

raised-le_example :
    raised key engine (
      record { event = event; time = 100; world = world }
      ∷ record { event = event; time = 160; world = world }
      ∷ [])
    ≤ 2 * 1
raised-le_example =
    raised-le key 60 1
      (record { event = event; time = 100; world = world }
        ∷ record { event = event; time = 160; world = world }
        ∷ [])
      engine 100 (unfold active_limit in refl) (omega arith) (omega arith)

-- An event is taken and handled.
taken_and_handled :
    Run engine
      (event ∷ [])
      ((event, world, 100) ∷ [])
      (handle engine world 100 event).1
      (handle engine world 100 event).0
unfolding submit run_one
taken_and_handled =
    turn {e' = (handle engine world 100 event).0} event [] world 100
      (taken {e' = record engine { queue = event ∷ [] }} {told = false} event start (omega arith)
        refl)
      refl refl

Run-IsValid_example :
    IsValid (handle engine world 100 event).0
    × ((event ∷ []) ++ (handle engine world 100 event).0.queue ≡ event ∷ [])
    × ((handle engine world 100 event).1 ≡ (replay engine ((event, world, 100) ∷ [])).1)
    × ((handle engine world 100 event).0.rates ≡ (replay engine ((event, world, 100) ∷ [])).0.rates)
Run-IsValid_example = Run-IsValid tables compile options new-engine taken_and_handled
