-- ===== src/Monitor/Client/Examples.antt =====
-- Witnesses and runs of the client.
use redis_watcher.Monitor.Client.Session.{SessionError, dial_failed, session_outcome}
use redis_watcher.Monitor.Client.Session.Ends.{TakenForContext, run_round-session_outcome}
use redis_watcher.Monitor.Client.{cancelled, run_round}
use redis_watcher.Monitor.Client.Waiting.{Kept, read_waiting, read_waiting-render}
use redis_watcher.Monitor.Client.Stream.{line_of}
use redis_watcher.Base.{Bool, none, false, ◌↔◌, sym}
use redis_watcher.Base.Bytes.{eq_bytes}
use redis_watcher.Base.{◌+◌, ◌%◌, ◌^◌, ◌++◌, true, false, List, [], ◌∷◌, map, ◌≡◌, refl, arith}
use redis_watcher.Base.Bytes.{Bytes, codes}
use redis_watcher.Alert.Retry.Backoff.{schedule}
use redis_watcher.Go.Int.{pos}
use redis_watcher.Go.Text.{Unicode, cut, trim_right, trim_left, trim_space}
use redis_watcher.Monitor.Parser.{parse, parse_fields}
use redis_watcher.Monitor.Client.{
  Client, Options, Round, failed, read_loop, stream_ended, start_loop, run_delays, read_round,
  take_parsed,
}
use redis_watcher.Monitor.Client.Backoff.{run_delays-schedule}
use redis_watcher.Base.Results.{ok}
use redis_watcher.Monitor.Client.Session.{run_once, handshake, ended}
use redis_watcher.Monitor.Client.Session.Handshake.{OneLine, stream_of}
use redis_watcher.Monitor.Client.Session.Served.{greeting, asked, run_once-stream_of}
use redis_watcher.Resp.{Conn, eof}
use redis_watcher.Monitor.Client.Stream.{
  IsCommand, Command, event_for, frames, counted, read_loop-counted,
}
use redis_watcher.Monitor.Parser.Render.{bare, print_peer}

abbrev tables : Unicode
tables = record { map_upper = λ s. s; map_lower = λ s. s; trim_func = λ s. s }

abbrev options : Options
options = record { read_timeout = pos 0; backoff_min = pos 2; backoff_max = pos 5 }

abbrev client : Client
client = record {
  opts = options;
  queue = [];
  capacity = 2;
  drop = true;
  dropped = 0;
  parse_errors = 0;
  reconnections = 0;
}

abbrev command : Command
command = record {
  line = record {
    sec = 7;
    usec = 5;
    db = pos 0;
    peer = bare (codes "lua");
    args = codes "get" ∷ codes "k" ∷ [];
  };
  name = codes "get";
  args = codes "k" ∷ [];
}

abbrev stray : List Bytes
stray = codes "\r\n" ∷ codes "+bad\r\n" ∷ codes ":1\r\n" ∷ []

stray-end : (read_loop tables client stray (codes "EOF")).2 ≡ stream_ended (codes "EOF")
unfolding read_loop read_round take_parsed parse parse_fields cut trim_right trim_space trim_left
stray-end = refl

read_loop-counted_example :
    counted (read_loop tables client stray (codes "EOF")).0 % 2 ^ 64
    ≡ (counted client + frames stray) % 2 ^ 64
read_loop-counted_example =
    read_loop-counted tables stray client (codes "EOF") (codes "EOF") stray-end

abbrev failure : Round
failure = record {
  active_before = true;
  wait_cut = false;
  outcome = failed;
  active_after = true;
  wakes = true;
}

run_delays-schedule_example :
    run_delays options (start_loop options) (failure ∷ failure ∷ failure ∷ []) ≡ schedule 2 5 0 3
run_delays-schedule_example =
    run_delays-schedule options 2 5 refl refl (omega arith) (failure ∷ failure ∷ failure ∷ [])
      (omega arith)
      ((refl, refl, refl, refl), ((refl, refl, refl, refl), ((refl, refl, refl, refl), tt)))

abbrev server : Conn
server = record {
  unread = greeting (codes "pw") ++ stream_of (command ∷ command ∷ []);
  at_end = eof;
  sent = [];
  accepts = λ _. true;
}

command-fits : IsCommand command
command-fits = (
  refl,
  record {
    sec_fits = omega arith;
    usec_fits = omega arith;
    db_fits = omega arith;
    peer_fits = ground arith;
    args_fit = omega arith;
  },
)

command-OneLine : OneLine command
command-OneLine =
    unfold print_peer in (λ e. omega arith, (λ e. omega arith, (λ e. omega arith, tt)))

run_once-stream_of_example :
    let r = run_once tables [] (codes "pw") (ok server) client in
    (handshake [] (codes "pw") server
      ≡ ok (record server {
        unread = stream_of (command ∷ command ∷ []);
        sent = asked [] (codes "pw");
      }))
    × (r.0 ≡ record client { queue = map (event_for tables) (command ∷ command ∷ []) })
    × (r.2 ≡ ended (stream_ended (codes "server closed connection")))
run_once-stream_of_example =
    run_once-stream_of eof (λ _. true) (λ t. refl) tables [] (codes "pw") []
      (command ∷ command ∷ []) client (command-fits, (command-fits, tt))
      (command-OneLine, (command-OneLine, tt)) (omega arith)

-- A dial that times out.
abbrev timed_out : SessionError
timed_out = dial_failed (codes "i/o timeout")

abbrev timeout : Bytes → Bool
timeout e = eq_bytes e (codes "i/o timeout")

timed_out-cancelled : session_outcome timeout false timed_out ≡ cancelled
unfolding session_outcome eq_bytes
timed_out-cancelled = refl

run_round-session_outcome_example :
    ((run_round options (start_loop options) (record failure { outcome = cancelled })).0 ≡ none)
    ↔ TakenForContext timeout timed_out
run_round-session_outcome_example =
    run_round-session_outcome timeout options (start_loop options)
      (record failure { outcome = cancelled }) refl refl timed_out (sym timed_out-cancelled) refl

-- A channel for one event, and two commands.
abbrev narrow : Client
narrow = record client { capacity = 1; drop = false }

read_waiting-render_example :
    Kept narrow
      (map (event_for tables) (command ∷ command ∷ []))
      (codes "EOF")
      (read_waiting tables narrow (map line_of (command ∷ command ∷ [])) (codes "EOF"))
read_waiting-render_example =
    read_waiting-render tables (command ∷ command ∷ []) narrow (codes "EOF")
      (command-fits, (command-fits, tt)) refl (omega arith) (omega arith)
