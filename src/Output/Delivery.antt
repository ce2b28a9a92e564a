-- ===== src/Output/Delivery.antt =====
-- internal/output: a consumer with its sink, over turns of `Run` before the shutdown. What the file,
-- the dialer and the socket answer is given for each turn.
use redis_watcher.Base.{List, [], ◌∷◌, ◌++◌, Option, none, some, ◌≡◌, refl, arith, ap, ◌∙◌, map}
use redis_watcher.Base.Bytes.{Bytes}
use redis_watcher.Base.Lists.{length, take}
use redis_watcher.Base.Results.{Result, ok, err}
use redis_watcher.Event.{Event}
use redis_watcher.Output.{Consumer, at_write, write_one}
use redis_watcher.Output.Encode.{EncodeError}
use redis_watcher.Output.Network.{
  NetSink, WriteError, dialled, wrote, closed, Answers, write_on, send, send_encoded, net_write,
}
use redis_watcher.Output.Network.Protocol.{accepted}
use redis_watcher.Output.Sinks.{
  Sink, file, stdout, net, Handed, to_writer, to_net, format_of, sink_write, arrived,
  sink_write-arrived,
}

-- An event with what the sink's `Write` returned for it.
abbrev pub Tried : Type 0
Tried = Event × Result WriteError (Unit {0})

send-opts : (buf : Bytes) (w : Answers) (s : NetSink) → (send buf w s).1.opts ≡ s.opts
unfolding send write_on
send-opts buf w s = ground arith

send_encoded-opts :
    (r : Result EncodeError Bytes) (w : Answers) (s : NetSink)
    → (send_encoded r w s).1.opts ≡ s.opts
unfolding send_encoded
send_encoded-opts (err e) w s = refl
send_encoded-opts (ok buf) w s = send-opts buf w s

arrived-append : (a b : List Handed) → arrived (a ++ b) ≡ arrived a ++ arrived b
unfolding arrived
arrived-append [] b = refl
arrived-append (to_writer buf none ∷ a) b = ap (◌∷◌ buf) (arrived-append a b)
arrived-append (to_writer buf (some e) ∷ a) b = arrived-append a b
arrived-append (to_net (dialled r) ∷ a) b = arrived-append a b
arrived-append (to_net (wrote c buf none) ∷ a) b = ap (◌∷◌ buf) (arrived-append a b)
arrived-append (to_net (wrote c buf (some e)) ∷ a) b = arrived-append a b
arrived-append (to_net (closed c) ∷ a) b = arrived-append a b

module _ (encode : Event → Bytes → Result EncodeError Bytes) (message : WriteError → Bytes) where
  -- The error that `writeOne` gets.
  abbrev pub error_of : Result WriteError (Unit {0}) → Option Bytes
  error_of (ok _) = none
  error_of (err e) = some (message e)

  -- The turns of `Run` on the queue, until it is empty or the answers are used up: the sink and the
  -- consumer that are left, the events that were tried, and what was handed out.
  unfoldable pub serve :
      List Answers → List Event → Sink → Consumer → Sink × Consumer × List Tried × List Handed
  serve [] q s c = (s, record c { queue = q }, [], [])
  serve (w ∷ ws) [] s c = (s, record c { queue = [] }, [], [])
  serve (w ∷ ws) (ev ∷ q) s c =
      let (r, s', hs) = sink_write encode ev w s in
      let (c', es) = write_one at_write ev (error_of r) (record c { queue = q }) in
      let (s'', c'', tried, hs') = serve ws q s' c' in (s'', c'', (ev, r) ∷ tried, hs ++ hs')

  -- The encodings of the events whose write reported success.
  abbrev pub reported : Bytes → List Tried → List Bytes
  reported format [] = []
  reported format ((ev, r) ∷ tried) = accepted (encode ev format) r ++ reported format tried

  net_write-opts :
      (ev : Event) (w : Answers) (s : NetSink) → (net_write encode ev w s).1.opts ≡ s.opts
  unfolding net_write
  net_write-opts ev w s = send_encoded-opts (encode ev s.opts.format) w s

  sink_write-format_of :
      (ev : Event) (w : Answers) (s : Sink) → format_of (sink_write encode ev w s).1 ≡ format_of s
  unfolding sink_write
  sink_write-format_of ev w (file o) = refl
  sink_write-format_of ev w (stdout format) = refl
  sink_write-format_of ev w (net s) = ap (λ o. o.format) (net_write-opts ev w s)

  pub serve-arrived :
      (ws : List Answers) (q : List Event) (s : Sink) (c : Consumer)
      → let (s', c', tried, hs) = serve ws q s c in
        (map (λ t. t.0) tried ≡ take (length ws) q)
        × (map (λ t. t.0) tried ++ c'.queue ≡ q)
        × (arrived hs ≡ reported (format_of s) tried)
  unfolding serve arrived
  serve-arrived [] q s c = (refl, refl, refl)
  serve-arrived (w ∷ ws) [] s c = (refl, refl, refl)
  serve-arrived (w ∷ ws) (ev ∷ q) s c =
      let (r, s', hs) = sink_write encode ev w s in
      let c' = (write_one at_write ev (error_of r) (record c { queue = q })).0 in
      let (first, all, came) = serve-arrived ws q s' c' in
      (
        ap (◌∷◌ ev) first,
        ap (◌∷◌ ev) all,
        arrived-append hs (serve ws q s' c').3
            ∙ rw (sink_write-arrived encode ev w s, came, sink_write-format_of ev w s) refl,
      )
