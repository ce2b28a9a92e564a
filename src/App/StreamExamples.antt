-- ===== src/App/StreamExamples.antt =====
-- Witnesses of the dispatcher and of the stream that it is fed from.
use redis_watcher.Base.{true, false, List, [], ◌∷◌, map, none, some, ◌≡◌, refl, arith}
use redis_watcher.Base.Bytes.{Bytes, codes}
use redis_watcher.Base.Results.{ok}
use redis_watcher.App.{dispatch_events}
use redis_watcher.App.Flow.{full, kept, queued, queued_alerts, dispatch_events-kept}
use redis_watcher.Monitor.Client.{Client}
use redis_watcher.Monitor.Client.Stream.{Command, IsCommand, event_for}
use redis_watcher.Monitor.Parser.Render.{bare}
use redis_watcher.Event.{Event}
use redis_watcher.Go.Int.{pos}
use redis_watcher.Output.Sinks.{Sink}
use redis_watcher.Output.{Consumer, new_consumer}
use redis_watcher.App.Pipeline.{received, serve-run_once, turns-run_once}
use redis_watcher.Base.Lists.{All}
use redis_watcher.Alert.Engine.Turns.{Turn, turns, raised, flagged}
use redis_watcher.Alert.Engine.{Engine}
use redis_watcher.Alert.Limiter.{active_limit}
use redis_watcher.Base.{none}
use redis_watcher.Base.{false}
use redis_watcher.Base.Lists.{take}
use redis_watcher.Base.Results.{Result}
use redis_watcher.Monitor.Client.Session.Handshake.{OneLine}
use redis_watcher.Monitor.Parser.Render.{print_peer}
use redis_watcher.Output.Delivery.{serve, reported}
use redis_watcher.Output.Encode.{EncodeError}
use redis_watcher.Output.Network.{WriteError, Answers}
use redis_watcher.Output.Sinks.{arrived}
use redis_watcher.Resp.{eof}
use redis_watcher.App.Examples.{tables, engine}

abbrev event : Bytes → Event
event name = record {
  timestamp = record { sec = pos 7; nsec = 0 };
  db = pos 0;
  source = record { ip = codes "::1"; port = codes "5" };
  command = name;
  subcommand = [];
  args = [];
}

abbrev events : List Event
events = event (codes "PING") ∷ event (codes "GET") ∷ []

dispatch_events-kept_example :
    dispatch_events (full (codes "PING" ∷ []) (new_consumer 2 true ∷ []) engine) events
    ≡ some (
        full
          (codes "PING" ∷ [])
          (map (queued (kept (codes "PING" ∷ []) events)) (new_consumer 2 true ∷ []))
          (queued_alerts (kept (codes "PING" ∷ []) events) engine))
unfolding new_consumer
dispatch_events-kept_example =
    dispatch_events-kept (codes "PING" ∷ []) events (new_consumer 2 true ∷ []) engine (omega arith)
      (omega arith)

abbrev client : Client
client = record {
  opts = record { read_timeout = pos 0; backoff_min = pos 2; backoff_max = pos 5 };
  queue = [];
  capacity = 2;
  drop = true;
  dropped = 0;
  parse_errors = 0;
  reconnections = 0;
}

abbrev command : Command
command = record {
  line = record {
    sec = 7;
    usec = 5;
    db = pos 0;
    peer = bare (codes "lua");
    args = codes "get" ∷ codes "k" ∷ [];
  };
  name = codes "get";
  args = codes "k" ∷ [];
}

command-IsCommand : IsCommand command
command-IsCommand = (
  refl,
  record {
    sec_fits = omega arith;
    usec_fits = omega arith;
    db_fits = omega arith;
    peer_fits = ground arith;
    args_fit = omega arith;
  },
)

command-OneLine : OneLine command
command-OneLine =
    unfold print_peer in (λ e. omega arith, (λ e. omega arith, (λ e. omega arith, tt)))

abbrev encoder : Event → Bytes → Result EncodeError Bytes
encoder ev format = ok ev.command

abbrev no_message : WriteError → Bytes
no_message _ = []

-- The first write fails, the second one works.
abbrev answers : List Answers
answers =
    record { dial = ok 1; write = some (codes "full") } ∷ record { dial = ok 1; write = none } ∷ []

abbrev idle : Consumer
idle = record {
  queue = [];
  capacity = 2;
  drop = true;
  dropped = 0;
  written = 0;
  errors = 0;
  failing = false;
}

abbrev commands : List Command
commands = command ∷ command ∷ []

commands-fit : All IsCommand commands
commands-fit = (command-IsCommand, (command-IsCommand, tt))

commands-OneLine : All OneLine commands
commands-OneLine = (command-OneLine, (command-OneLine, tt))

abbrev arrives : List Event
arrives = received tables eof (λ _. true) [] [] commands client []

abbrev evs : List Event
evs = kept [] (map (event_for tables) commands)

serve-run_once_example :
    let done =
      serve encoder no_message answers
        (queued evs idle).queue
        (Sink.stdout (codes "json"))
        (queued evs idle) in
    (dispatch_events (full [] (idle ∷ []) engine) arrives
      ≡ some (full [] (map (queued evs) (idle ∷ [])) (queued_alerts evs engine)))
    × (map (λ t. t.0) done.2 ≡ take 2 evs)
    × (arrived done.3 ≡ reported encoder no_message (codes "json") done.2)
serve-run_once_example =
    serve-run_once tables eof (λ _. true) [] [] commands client [] encoder no_message [] [] idle
      (Sink.stdout (codes "json")) engine answers (λ t. refl) commands-fit commands-OneLine refl
      refl (omega arith) (omega arith, tt) (omega arith)

-- An engine without a limit, which watches the command.
abbrev watchful : Engine
watchful = record engine {
  commands = codes "GET" ∷ [];
  limit = record engine.limit { enabled = false };
}

abbrev quick : Turn
quick = (λ _. record { outcome = λ _. none; wakes = λ _. true }, 7)

turns-run_once_example :
    (dispatch_events (full [] (idle ∷ []) watchful) arrives
      ≡ some (full [] (map (queued evs) (idle ∷ [])) (queued_alerts evs watchful)))
    × (raised (turns (quick ∷ quick ∷ []) (queued_alerts evs watchful)).1
        ≡ flagged watchful (take 2 evs))
turns-run_once_example =
    turns-run_once tables eof (λ _. true) [] [] commands client [] (idle ∷ []) watchful
      (quick ∷ quick ∷ []) (λ t. refl) commands-fit commands-OneLine refl refl (omega arith)
      (omega arith, tt) (omega arith) (unfold active_limit in refl)
