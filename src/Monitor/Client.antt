-- ===== src/Monitor/Client.antt =====
-- internal/monitor/client.go: the loop that reads the MONITOR stream, and the loop that reconnects.
-- The lines that arrive are given, with the error that ends the stream; so are the gate and the
-- outcome of each connection.
pub mod Stream
pub mod Waiting
pub mod Backoff
pub mod Session
mod Examples
use redis_watcher.Base.{
  ℕ, suc, zero, ◌+◌, ◌%◌, ◌^◌, Bool, true, false, not, ◌&&◌, ◌||◌, List, [], ◌∷◌, ◌++◌, Option,
  none, some,
}
use redis_watcher.Base.Bytes.{Bytes, codes, is_empty}
use redis_watcher.Base.Lists.{length}
use redis_watcher.Base.Results.{Result, ok, err}
use redis_watcher.Base.Tests.{ltb, ◌==◌, if◌then◌else◌}
use redis_watcher.Event.{Time, Event}
use redis_watcher.Go.Int.{ℤ, pos, gt_ℤ, double, default_time}
use redis_watcher.Go.Text.{Unicode, trim_space, contains_any, cut_last}
use redis_watcher.Monitor.Parser.{ParseError, parse}

-- The settings that the loops read; the others are passed to the dialer and to AUTH.
pub record Options : Type 0 where
  pub read_timeout : ℤ
  pub backoff_min : ℤ
  pub backoff_max : ℤ

-- The client, with the channel that it sends to.
pub record Client : Type 0 where
  pub opts : Options
  pub queue : List Event
  pub capacity : ℕ
  pub drop : Bool
  pub dropped : ℕ
  pub parse_errors : ℕ
  pub reconnections : ℕ

-- The two corrections of the delays.
unfoldable pub fix_backoff : Options → Options
fix_backoff o =
    let low = default_time o.backoff_min (pos 1_000_000_000) in
    record o {
      backoff_min = low;
      backoff_max = if gt_ℤ low o.backoff_max then pos 30_000_000_000 else o.backoff_max;
    }

unfoldable pub new_client : Options → ℕ → Bool → Client
unfolding fix_backoff
new_client o capacity drop_on_full = record {
  opts = fix_backoff o;
  queue = [];
  capacity = capacity;
  drop = drop_on_full;
  dropped = 0;
  parse_errors = 0;
  reconnections = 0;
}

-- The calls of the metrics sink and of the error reporter.
pub data Effect : Type 0 where
  incr_parse_error : Effect
  report_parse : ParseError → Bytes → Effect
  observe_last_event : Time → Effect
  incr_monitor_dropped : Effect

-- How the reading of the stream ends: an error from the server, the end of the connection, or a
-- send on a full queue that blocks. The loop goes on from such a send when the dispatcher takes an
-- event, which Waiting has, and returns when the context ends; what is given here is the state in
-- which it waits.
pub data End : Type 0 where
  server_error : Bytes → End
  stream_ended : Bytes → End
  blocked : Event → End

abbrev pub add_one : ℕ → ℕ
add_one n = (n + 1) % 2 ^ 64

-- The sending of a parsed event, behind the report of its time, which `before_end` has where the send
-- blocks.
unfoldable pub send_event : Client → Event → Result End (Client × List Effect)
send_event c ev =
    if ltb (length c.queue) c.capacity
    then ok (record c { queue = c.queue ++ ev ∷ [] }, observe_last_event ev.timestamp ∷ [])
    else if c.drop
    then ok (
      record c { dropped = add_one c.dropped },
      observe_last_event ev.timestamp ∷ incr_monitor_dropped ∷ [],
    )
    else err (blocked ev)

-- A line that starts with `+`, by what `Parse` makes of it.
unfoldable pub take_parsed :
    Unicode → Client → Bytes → Result ParseError Event → Result End (Client × List Effect)
unfolding send_event
take_parsed u c line (ok ev) = send_event c ev
take_parsed u c line (err e) = ok (
  record c { parse_errors = add_one c.parse_errors },
  incr_parse_error ∷ report_parse e (trim_space u line) ∷ [],
)

-- One round of `readLoop` on a line that was read.
unfoldable pub read_round : Unicode → Client → Bytes → Result End (Client × List Effect)
unfolding take_parsed
read_round u c [] = ok (c, [])
read_round u c (x ∷ s) =
    if x == b'+'
    then take_parsed u c (x ∷ s) (parse u (x ∷ s))
    else if x == b'-'
    then err (server_error (trim_space u s))
    else ok (c, [])

-- What the round that ends the loop has told the metrics: a send that blocks comes after the time of
-- its event was reported.
abbrev pub before_end : End → List Effect
before_end (server_error e) = []
before_end (stream_ended e) = []
before_end (blocked ev) = observe_last_event ev.timestamp ∷ []

-- `readLoop` on the lines that arrive before the stream ends with an error.
unfoldable pub read_loop : Unicode → Client → List Bytes → Bytes → Client × List Effect × End
read_loop u c [] e = (c, [], stream_ended e)
read_loop u c (line ∷ lines) e = elim (read_round u c line) [
  | err end ↦ (c, before_end end, end)
  | ok (c', es) ↦ let (c'', es', end) = read_loop u c' lines e in (c'', es ++ es', end)
]

-- `redact`.
unfoldable pub redact : Bytes → Bytes
redact [] = []
redact (c ∷ s) = if c == b'/' then c ∷ s else elim (cut_last b':' (c ∷ s)) [
  | none ↦ c ∷ s
  | some (host, port) ↦ if is_empty host then c ∷ s else host ++ codes ":***"
]

-- How `runOnce` ends: without an error, with an error on which `Run` returns, or with another one.
-- `errors.Is` takes an error of the second kind for `context.Canceled` or
-- `context.DeadlineExceeded`; the timeout of a dial is such an error too.
pub data Outcome : Type 0 where
  finished cancelled failed : Outcome

-- What the world does in a round of `Run`, whose check of the context at its head passes: whether
-- the gate is active before the connection, and whether the wait for it ends by the context; how the
-- connection ends; whether the gate is active then; and whether the delay runs its time. Without a
-- gate both answers are true.
pub record Round : Type 0 where
  pub active_before : Bool
  pub wait_cut : Bool
  pub outcome : Outcome
  pub active_after : Bool
  pub wakes : Bool

-- The state of the loop: the delay, and whether a connection was tried before.
pub record Loop : Type 0 where
  pub backoff : ℤ
  pub first : Bool
  pub reconnections : ℕ

unfoldable pub start_loop : Options → Loop
start_loop o = record { backoff = o.backoff_min; first = true; reconnections = 0 }

-- `backoff *= 2` and its cap.
unfoldable pub grow : Options → ℤ → ℤ
grow o b = let b' = double b in if gt_ℤ b' o.backoff_max then o.backoff_max else b'

-- The round up to the connection; `none` where `Run` returns.
unfoldable pub before_connect : Options → Loop → Round → Option Loop
before_connect o l r =
    if not r.active_before && r.wait_cut
    then none
    else some (record {
      backoff = if r.active_before then l.backoff else o.backoff_min;
      first = false;
      reconnections = if l.first then l.reconnections else add_one l.reconnections;
    })

-- The round behind it, with the delays that it waits; `none` where `Run` returns.
unfoldable pub after_connect : Options → Loop → Round → Option Loop × List ℤ
after_connect o l r = elim r.outcome [
  | finished ↦ (none, [])
  | cancelled ↦ (none, [])
  | failed ↦
      if not r.active_after
      then (some l, [])
      else if r.wakes
      then (some (record l { backoff = grow o l.backoff }), l.backoff ∷ [])
      else (none, l.backoff ∷ [])
]

unfoldable pub run_round : Options → Loop → Round → Option Loop × List ℤ
unfolding before_connect after_connect grow
run_round o l r = elim (before_connect o l r) [ none ↦ (none, []) | some l' ↦ after_connect o l' r ]

-- `Run` for the rounds that are given: the delays.
unfoldable pub run_delays : Options → Loop → List Round → List ℤ
run_delays o l [] = []
run_delays o l (r ∷ rs) =
    let (next, ds) = run_round o l r in elim next [ none ↦ ds | some l' ↦ ds ++ run_delays o l' rs ]
