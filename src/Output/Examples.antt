-- ===== src/Output/Examples.antt =====
-- Witnesses and runs of the outputs.
use redis_watcher.Base.{
  ℕ, ◌%◌, ◌^◌, true, false, List, [], ◌∷◌, ◌++◌, Option, none, some, ◌≡◌, refl,
}
use redis_watcher.Base.Bytes.{Bytes, codes}
use redis_watcher.Base.Lists.{length}
use redis_watcher.Base.Results.{Result, ok}
use redis_watcher.Event.{Time, Event}
use redis_watcher.Event.Quoting.{read_words, gap}
use redis_watcher.Go.Int.{pos}
use redis_watcher.Go.Text.{Unicode, to_lower, lower_byte}
use redis_watcher.Output.{
  Consumer, Effect, new_consumer, submit, run_one, write_one, drain_after_shutdown,
  incr_output_dropped, observe_output_write, incr_output_error, set_output_failing, report,
  at_write,
}
use redis_watcher.Output.Queue.{
  Run, started, submitted, served, Subsequence, total, Run-Subsequence, Run-counts,
}
use redis_watcher.Output.Network.{NetSink, net_write, net_close, send, send_encoded, write_on}
use redis_watcher.Output.Network.Protocol.{
  Call, write, close, delivered, follow as follow_conn, run as run_sink, run-follow,
}
use redis_watcher.Output.Failing.{follow, shown, Run-follow}
use redis_watcher.Output.Drain.{accounted, Ends, drain_after_shutdown_lem}
use redis_watcher.Output.Encode.{EncodeError, encode, text_head, encode-text_args}

abbrev event : Bytes → Event
event name = record {
  timestamp = record { sec = pos 7; nsec = 0 };
  db = pos 0;
  source = record { ip = codes "::1"; port = codes "5" };
  command = name;
  subcommand = [];
  args = codes "a b" ∷ [];
}

abbrev first : Event
first = event (codes "GET")

abbrev second : Event
second = event (codes "SET")

-- A consumer with room for one event: the second submission is dropped, the write fails.
abbrev full : Consumer
full = record (new_consumer 1 true) { queue = first ∷ [] }

run :
    Run 1 true
      (first ∷ second ∷ [])
      (first ∷ [])
      (incr_output_dropped
        ∷ observe_output_write
        ∷ incr_output_error
        ∷ set_output_failing true
        ∷ report at_write (codes "EOF") (codes "GET")
        ∷ [])
      (record (new_consumer 1 true) { dropped = 1; errors = 1; failing = true })
unfolding new_consumer submit run_one write_one
run = served first (some (codes "EOF")) (submitted second (submitted first started refl) refl) refl

abbrev last : Consumer
last = record (new_consumer 1 true) { dropped = 1; errors = 1; failing = true }

abbrev effects : List Effect
effects =
    incr_output_dropped
    ∷ observe_output_write
    ∷ incr_output_error
    ∷ set_output_failing true
    ∷ report at_write (codes "EOF") (codes "GET")
    ∷ []

Run-Subsequence_example : Subsequence ((first ∷ []) ++ last.queue) (first ∷ second ∷ [])
Run-Subsequence_example = Run-Subsequence 1 true (first ∷ second ∷ []) (first ∷ []) effects last run

Run-counts_example : length (first ∷ second ∷ []) % 2 ^ 64 ≡ total last % 2 ^ 64
Run-counts_example = Run-counts 1 true (first ∷ second ∷ []) (first ∷ []) effects last run

Run-follow_example : follow (shown false) effects ≡ some (shown last.failing)
Run-follow_example = Run-follow 1 true (first ∷ second ∷ []) (first ∷ []) effects last run

abbrev outcome : ℕ → Option Bytes
outcome _ = none

drain_after_shutdown_lem_example :
    (accounted (drain_after_shutdown (λ _. false) outcome full) ≡ full.queue)
    × Ends (λ _. false) outcome 0 (drain_after_shutdown (λ _. false) outcome full)
drain_after_shutdown_lem_example = drain_after_shutdown_lem (λ _. false) outcome full

abbrev tables : Unicode
tables = record { map_upper = λ s. s; map_lower = λ s. s; trim_func = λ s. s }

abbrev marshal : Event → Result Bytes Bytes
marshal _ = ok []

abbrev format_time : Time → Bytes
format_time _ = codes "now"

lower_text : to_lower tables (codes "Text") ≡ codes "text"
unfolding to_lower lower_byte
lower_text = refl

encode-text_args_example :
    (line : Bytes) × (encode tables marshal format_time first (codes "Text")
      ≡ ok (text_head format_time first ++ (line ++ b'\n' ∷ [])))
    × (read_words gap line ≡ codes "a b" ∷ [])
encode-text_args_example =
    encode-text_args tables marshal format_time first (codes "Text") lower_text

-- A sink whose first write fails: it dials again for the second one, and closes at the end.
abbrev tcp : NetSink
tcp = record {
  opts = record {
    network = codes "tcp";
    address = codes "a:1";
    timeout = pos 5;
    keepalive = pos 0;
    format = codes "text";
  };
  conn = none;
}

abbrev encoder : Event → Bytes → Result EncodeError Bytes
encoder ev format = ok ev.command

abbrev session : List Call
session =
    write first (record { dial = ok 1; write = some (codes "reset") })
    ∷ write second (record { dial = ok 2; write = none })
    ∷ close
    ∷ []

run-follow_example :
    (follow_conn none (run_sink encoder tcp session).1 ≡ some (run_sink encoder tcp session).0.conn)
    × (delivered (run_sink encoder tcp session).1 ≡ (run_sink encoder tcp session).2)
run-follow_example = run-follow encoder tcp session

session-delivered : (run_sink encoder tcp session).2 ≡ codes "SET" ∷ []
unfolding run_sink net_write net_close send send_encoded write_on
session-delivered = refl
