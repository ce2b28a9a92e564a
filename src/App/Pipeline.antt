-- ===== src/App/Pipeline.antt =====
-- The whole program in a row: from the bytes that a server sends on a connection to what arrives at
-- a sink and to the alerts that are raised.
use mathlib.Core.Path.{subst}
use redis_watcher.Base.{
  suc, refl, sym, ◌+◌, ◌≤◌, Bool, true, List, [], ◌∷◌, ◌++◌, map, none, some, ◌≡◌, arith, ap, ◌∙◌,
}
use redis_watcher.Base.Bytes.{Bytes}
use redis_watcher.Base.Lists.{length, take, All}
use redis_watcher.Base.Results.{Result, ok}
use redis_watcher.Alert.Engine.{Engine}
use redis_watcher.Alert.Engine.Turns.{Turn, turns, raised, flagged, turns-raised}
use redis_watcher.Alert.Limiter.{active_limit}
use redis_watcher.App.{dispatch_events}
use redis_watcher.App.Flow.{full, kept, queued, queued_alerts, Roomy, dispatch_events-kept}
use redis_watcher.Event.{Event}
use redis_watcher.Go.Text.{Unicode}
use redis_watcher.Monitor.Client.{Client}
use redis_watcher.Monitor.Client.Session.{run_once}
use redis_watcher.Monitor.Client.Session.Handshake.{OneLine, stream_of}
use redis_watcher.Monitor.Client.Session.Served.{greeting, run_once-stream_of}
use redis_watcher.Monitor.Client.Stream.{Command, IsCommand, event_for}
use redis_watcher.Output.{Consumer}
use redis_watcher.Output.Delivery.{serve, reported, serve-arrived}
use redis_watcher.Output.Encode.{EncodeError}
use redis_watcher.Output.Network.{WriteError, Answers}
use redis_watcher.Output.Sinks.{Sink, format_of, arrived}
use redis_watcher.Resp.{Error, Conn}

length-map : (u : Unicode) (ks : List Command) → length (map (event_for u) ks) ≡ length ks
length-map u [] = refl
length-map u (k ∷ ks) = ap suc (length-map u ks)

-- The events of commands, in a queue of the client, go to every queue.
dispatch_events-queue :
    (u : Unicode) (ks : List Command) (ignored : List Bytes) (cs : List Consumer) (engine : Engine)
    → Roomy (length ks) cs
    → length engine.queue + length ks ≤ engine.capacity
    → let evs = kept ignored (map (event_for u) ks) in
      dispatch_events (full ignored cs engine) (map (event_for u) ks)
      ≡ some (full ignored (map (queued evs) cs) (queued_alerts evs engine))
dispatch_events-queue u ks ignored cs engine rooms wide =
    let same = length-map u ks in
    dispatch_events-kept ignored (map (event_for u) ks) cs engine
      (subst (λ n. Roomy n cs) (sym same) rooms) (omega (arith, same, wide))

-- A connection to a server that lets the watcher in and prints commands.
abbrev pub connection : Error → (Bytes → Bool) → Bytes → List Command → Conn
connection at_end accepts password ks = record {
  unread = greeting password ++ stream_of ks;
  at_end = at_end;
  sent = [];
  accepts = accepts;
}

module _ (u : Unicode) (at_end : Error) (accepts : Bytes → Bool) (username password : Bytes)
    (ks : List Command) (c : Client) (ignored : List Bytes) where
  -- The client's queue after the connection, and the events of it that are not ignored.
  abbrev pub received : List Event
  received = (run_once u username password (ok (connection at_end accepts password ks)) c).0.queue

  abbrev pub wanted : List Event
  wanted = kept ignored (map (event_for u) ks)

  dispatch_events-received :
      (cs : List Consumer) (engine : Engine)
      → ((t : Bytes) → accepts t ≡ true)
      → All IsCommand ks
      → All OneLine ks
      → c.queue ≡ []
      → length ks ≤ c.capacity
      → Roomy (length ks) cs
      → length engine.queue + length ks ≤ engine.capacity
      → dispatch_events (full ignored cs engine) received
        ≡ some (full ignored (map (queued wanted) cs) (queued_alerts wanted engine))
  dispatch_events-received cs engine all good one fresh room rooms wide =
      let read =
        run_once-stream_of at_end accepts all u username password [] ks c good one
          (omega (arith, ap length fresh, room)) in
      ap (dispatch_events (full ignored cs engine)) (queue read.1)
      ∙ dispatch_events-queue u ks ignored cs engine rooms wide
    where
      queue :
          {c' : Client}
          → c' ≡ record c { queue = c.queue ++ map (event_for u) ks }
          → c'.queue ≡ map (event_for u) ks
      queue read = ap (λ x. x.queue) read ∙ ap (λ q. q ++ map (event_for u) ks) fresh

  -- On a connection to a server that answers AUTH and MONITOR with +OK and prints commands, with
  -- room in every queue, the client and the dispatcher bring the events of the commands that are
  -- not ignored into every queue; and an output that was empty before tries them in the order of
  -- the stream, one in each turn, and what arrives at its sink, whatever the file, the dialer and
  -- the socket answer, is the encodings of those whose write reported success, each once.
  pub serve-run_once :
      (encode : Event → Bytes → Result EncodeError Bytes) (message : WriteError → Bytes)
      (before after : List Consumer) (k : Consumer) (s : Sink) (engine : Engine) (ws : List Answers)
      → ((t : Bytes) → accepts t ≡ true)
      → All IsCommand ks
      → All OneLine ks
      → c.queue ≡ []
      → k.queue ≡ []
      → length ks ≤ c.capacity
      → Roomy (length ks) (before ++ k ∷ after)
      → length engine.queue + length ks ≤ engine.capacity
      → let done = serve encode message ws (queued wanted k).queue s (queued wanted k) in
        (dispatch_events (full ignored (before ++ k ∷ after) engine) received
          ≡ some (
              full ignored
                (map (queued wanted) (before ++ k ∷ after))
                (queued_alerts wanted engine)))
        × (map (λ t. t.0) done.2 ≡ take (length ws) wanted)
        × (arrived done.3 ≡ reported encode message (format_of s) done.2)
  serve-run_once encode message before after k s engine ws all good one fresh idle room rooms wide =
      let (tried, left, came) =
        serve-arrived encode message ws (queued wanted k).queue s (queued wanted k) in
      (
        dispatch_events-received (before ++ k ∷ after) engine all good one fresh room rooms wide,
        tried ∙ ap (λ q. take (length ws) (q ++ wanted)) idle,
        came,
      )

  -- On a connection to a server that answers AUTH and MONITOR with +OK and prints commands, with
  -- room in every queue, the events of the commands that are not ignored come to an alert engine
  -- that was empty before; where it has no rate limit, its turns, one for each event, raise in the
  -- order of the stream an alert for each event that a rule matches and whose address is not
  -- ignored, to every channel, and no other alert.
  pub turns-run_once :
      (cs : List Consumer) (engine : Engine) (ws : List Turn)
      → ((t : Bytes) → accepts t ≡ true)
      → All IsCommand ks
      → All OneLine ks
      → c.queue ≡ []
      → engine.queue ≡ []
      → length ks ≤ c.capacity
      → Roomy (length ks) cs
      → length engine.queue + length ks ≤ engine.capacity
      → active_limit engine.limit ≡ none
      → (dispatch_events (full ignored cs engine) received
          ≡ some (full ignored (map (queued wanted) cs) (queued_alerts wanted engine)))
        × (raised (turns ws (queued_alerts wanted engine)).1
            ≡ flagged engine (take (length ws) wanted))
  turns-run_once cs engine ws all good one fresh idle room rooms wide free = (
    dispatch_events-received cs engine all good one fresh room rooms wide,
    turns-raised ws (queued_alerts wanted engine).queue engine free
        ∙ ap (λ q. flagged engine (take (length ws) (q ++ wanted))) idle,
  )
