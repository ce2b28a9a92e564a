-- ===== src/Monitor/Client/Stream.antt =====
-- From the bytes of the stream to the events in the channel.
use redis_watcher.Base.{
  ℕ, ◌+◌, ◌%◌, ◌^◌, ◌≤◌, ◌<◌, List, [], ◌∷◌, ◌++◌, map, append_assoc, append-nil, ◌≡◌, ◌≢◌, inl,
  inr, refl, arith, ap, ◌∙◌, sym,
}
use redis_watcher.Base.Bytes.{Bytes}
use redis_watcher.Base.Lists.{length, length-append, All}
use redis_watcher.Base.Results.{Result, ok, err, Result-cases}
use redis_watcher.Base.Tests.{◌==◌, if◌then◌else◌}
use redis_watcher.Event.{Event}
use redis_watcher.Go.Text.{Unicode}
use redis_watcher.Monitor.Client.{
  Client, Effect, End, stream_ended, read_round, read_loop, take_parsed, send_event,
  observe_last_event,
}
use redis_watcher.Monitor.Parser.{ParseError, parse}
use redis_watcher.Monitor.Parser.Render.{Line, render}
use redis_watcher.Monitor.Parser.RoundTrip.{IsLine, event_of, parse-render}

-- A command of Redis: the line, and its arguments taken apart.
pub record Command : Type 0 where
  pub line : Line
  pub name : Bytes
  pub args : List Bytes

abbrev pub IsCommand : Command → Type 0
IsCommand k = (k.line.args ≡ k.name ∷ k.args) × IsLine k.line

abbrev pub line_of : Command → Bytes
line_of k = render k.line

abbrev pub event_for : Unicode → Command → Event
event_for u k = event_of u k.line k.name k.args

-- The round of a line that is parsed, where there is room.
read_round-parsed :
    (u : Unicode) (c : Client) (s : Bytes) (ev : Event)
    → parse u (b'+' ∷ s) ≡ ok ev
    → length c.queue < c.capacity
    → read_round u c (b'+' ∷ s)
      ≡ ok (record c { queue = c.queue ++ ev ∷ [] }, observe_last_event ev.timestamp ∷ [])
unfolding read_round take_parsed send_event
read_round-parsed u c s ev p room = rw p (ground arith)

pub read_round-render :
    (u : Unicode) (c : Client) (k : Command)
    → IsCommand k
    → length c.queue < c.capacity
    → read_round u c (line_of k)
      ≡ ok (
        record c { queue = c.queue ++ event_for u k ∷ [] },
        observe_last_event (event_for u k).timestamp ∷ [],
      )
unfolding render
read_round-render u c k h room =
    read_round-parsed u c _ (event_for u k) (parse-render u k.line k.name k.args h.0 h.1) room

read_loop-round :
    (u : Unicode) (c c' : Client) (es : List Effect) (line : Bytes) (lines : List Bytes) (e : Bytes)
    → read_round u c line ≡ ok (c', es)
    → (read_loop u c (line ∷ lines) e).0 ≡ (read_loop u c' lines e).0
      × (read_loop u c (line ∷ lines) e).2 ≡ (read_loop u c' lines e).2
unfolding read_loop
read_loop-round u c c' es line lines e h = rw (h, read_loop) (refl, refl)

abbrev with_queue : Client → List Event → Client
with_queue c q = record c { queue = q }

-- Whatever Redis prints while there is room in the channel: every command becomes its event, in the
-- order of the stream, none is lost, doubled or counted as a parse error, and the loop ends only
-- where the stream does.
pub read_loop-render :
    (u : Unicode) (ks : List Command) (c : Client) (e : Bytes)
    → All IsCommand ks
    → length c.queue + length ks ≤ c.capacity
    → let r = read_loop u c (map line_of ks) e in
      (r.0 ≡ record c { queue = c.queue ++ map (event_for u) ks }) × (r.2 ≡ stream_ended e)
read_loop-render u [] c e h room = unfold read_loop in (rw (append-nil c.queue) refl, refl)
read_loop-render u (k ∷ ks) c e h room =
    let c' : Client = record c { queue = c.queue ++ event_for u k ∷ [] } in
    let es = observe_last_event (event_for u k).timestamp ∷ [] in
    let now = read_round-render u c k h.0 (omega (arith, room)) in
    let (first, first_end) = read_loop-round u c c' es (line_of k) (map line_of ks) e now in
    let wide = length-append c.queue (event_for u k ∷ []) in
    let (later, later_end) = read_loop-render u ks c' e h.1 (omega (arith, room, wide)) in
    (
      first
          ∙ later
          ∙ ap (λ q. with_queue c q)
              (append_assoc c.queue (event_for u k ∷ []) (map (event_for u) ks)),
      first_end ∙ later_end,
    )

-- The lines that are taken as frames of the stream.
unfoldable pub frames : List Bytes → ℕ
frames [] = 0
frames ([] ∷ lines) = frames lines
frames ((x ∷ _) ∷ lines) = (if x == b'+' then 1 else 0) + frames lines

abbrev pub counted : Client → ℕ
counted c = length c.queue + c.dropped + c.parse_errors

take_parsed-counted :
    (u : Unicode) (c c' : Client) (es : List Effect) (line : Bytes) (r : Result ParseError Event)
    → take_parsed u c line r ≡ ok (c', es)
    → counted c' % 2 ^ 64 ≡ (counted c + 1) % 2 ^ 64
unfolding take_parsed send_event
take_parsed-counted u c c' es line (ok ev) h = ground (arith, length-append c.queue (ev ∷ []))
take_parsed-counted u c c' es line (err e) h = ground arith

read_round-counted :
    (u : Unicode) (c c' : Client) (es : List Effect) (line : Bytes)
    → read_round u c line ≡ ok (c', es)
    → counted c' % 2 ^ 64 ≡ (counted c + frames (line ∷ [])) % 2 ^ 64
unfolding read_round frames
read_round-counted u c c' es [] h = ground arith
read_round-counted u c c' es (x ∷ s) h =
    ground (arith, take_parsed-counted u c c' es (x ∷ s) (parse u (x ∷ s)))

frames-cons :
    (line : Bytes) (lines : List Bytes) → frames (line ∷ lines) ≡ frames (line ∷ []) + frames lines
unfolding frames
frames-cons [] lines = omega arith
frames-cons (x ∷ s) lines = omega arith

read_loop-stop :
    (u : Unicode) (c : Client) (line : Bytes) (lines : List Bytes) (e : Bytes) (end : End)
    → read_round u c line ≡ err end
    → (read_loop u c (line ∷ lines) e).2 ≡ end
unfolding read_loop
read_loop-stop u c line lines e end h = rw (h, read_loop) refl

-- A line never ends the loop as the end of the stream does.
take_parsed-end :
    (u : Unicode) (c : Client) (line : Bytes) (r : Result ParseError Event) (e : Bytes)
    → take_parsed u c line r ≢ err (stream_ended e)
unfolding take_parsed send_event
take_parsed-end u c line (ok ev) e h = ground arith
take_parsed-end u c line (err x) e h = ground arith

read_round-end :
    (u : Unicode) (c : Client) (line : Bytes) (e : Bytes)
    → read_round u c line ≢ err (stream_ended e)
unfolding read_round
read_round-end u c [] e h = ground arith
read_round-end u c (x ∷ s) e h = ground (arith, take_parsed-end u c (x ∷ s) (parse u (x ∷ s)) e)

-- Where the reading ends with the stream, and neither with an error line from the server nor in a
-- send that blocks on a full channel, every frame of the stream is counted once, whatever it holds:
-- its event is in the channel or, where the client drops on a full one, counted as dropped, or it
-- is counted as a parse error. The counters wrap around at 2^64.
pub read_loop-counted :
    (u : Unicode) (lines : List Bytes) (c : Client) (e e' : Bytes)
    → (read_loop u c lines e).2 ≡ stream_ended e'
    → counted (read_loop u c lines e).0 % 2 ^ 64 ≡ (counted c + frames lines) % 2 ^ 64
read_loop-counted u [] c e e' h = unfold read_loop frames in omega arith
read_loop-counted u (line ∷ lines) c e e' h = elim (Result-cases (read_round u c line)) [
  | inl ((c', es), goes) ↦
      let (same, same_end) = read_loop-round u c c' es line lines e goes in
      let now = read_round-counted u c c' es line goes in
      let later = read_loop-counted u lines c' e e' (sym same_end ∙ h) in
      rw same (omega (arith, now, later, frames-cons line lines))
  | inr (end, stops) ↦ absurd (
      read_round-end u c line e'
        (stops ∙ ap err (sym (read_loop-stop u c line lines e end stops) ∙ h)))
]
