-- ===== src/Monitor/Client/Waiting.antt =====
-- internal/monitor/client.go: `readLoop` without drop_on_full, where a send on the full channel waits
-- until the dispatcher takes an event.
use redis_watcher.Base.{
  ℕ, ◌≤◌, ◌<◌, false, List, [], ◌∷◌, ◌++◌, map, append_assoc, append-nil, Option, none, some, ◌≡◌,
  ◌⊎◌, inl, inr, refl, arith, ap, ◌∙◌, sym,
}
use mathlib.Core.Path.{subst}
use redis_watcher.Base.Bytes.{Bytes}
use redis_watcher.Base.Lists.{length, length-append, All}
use redis_watcher.Base.Results.{ok, err}
use redis_watcher.Event.{Event}
use redis_watcher.Go.Text.{Unicode}
use redis_watcher.Monitor.Client.{
  Client, Effect, End, server_error, stream_ended, blocked, read_round, take_parsed, send_event,
  observe_last_event,
}
use redis_watcher.Monitor.Client.Stream.{Command, IsCommand, line_of, event_for, read_round-render}
use redis_watcher.Monitor.Parser.{parse}
use redis_watcher.Monitor.Parser.Render.{render}
use redis_watcher.Monitor.Parser.RoundTrip.{parse-render}

-- The dispatcher takes the oldest event, and the send that waited puts its own.
unfoldable pub resume : Event → Client → List Event → Option (Event × Client)
resume ev c [] = none
resume ev c (oldest ∷ rest) = some (oldest, record c { queue = rest ++ ev ∷ [] })

unfoldable pub resume_at : End → Client → Option (Event × Client)
unfolding resume
resume_at (blocked ev) c = resume ev c c.queue
resume_at (server_error e) c = none
resume_at (stream_ended e) c = none

-- The loop on the lines that arrive, with the events that the dispatcher takes while sends wait.
unfoldable pub read_waiting : Unicode → Client → List Bytes → Bytes → List Event × Client × End
read_waiting u c [] e = ([], c, stream_ended e)
read_waiting u c (line ∷ lines) e = elim (read_round u c line) [
  | ok (c', es) ↦ read_waiting u c' lines e
  | err end ↦ elim (resume_at end c) [
    | none ↦ ([], c, end)
    | some (oldest, c') ↦
        let (taken, c'', end') = read_waiting u c' lines e in (oldest ∷ taken, c'', end')
  ]
]

read_round-full :
    (u : Unicode) (c : Client) (s : Bytes) (ev : Event)
    → parse u (b'+' ∷ s) ≡ ok ev
    → c.drop ≡ false
    → c.capacity ≤ length c.queue
    → read_round u c (b'+' ∷ s) ≡ err (blocked ev)
unfolding read_round take_parsed send_event
read_round-full u c s ev p keeps full = rw p (ground arith)

read_round-waits :
    (u : Unicode) (c : Client) (k : Command)
    → IsCommand k
    → c.drop ≡ false
    → c.capacity ≤ length c.queue
    → read_round u c (line_of k) ≡ err (blocked (event_for u k))
unfolding render
read_round-waits u c k h keeps full =
    read_round-full u c _ (event_for u k) (parse-render u k.line k.name k.args h.0 h.1) keeps full

-- What a run of the loop keeps.
abbrev pub Kept : Client → List Event → Bytes → List Event × Client × End → Type 0
Kept c evs e (taken, c', end) =
    (taken ++ c'.queue ≡ c.queue ++ evs)
    × (length c'.queue ≤ c.capacity)
    × (c'.dropped ≡ c.dropped)
    × (end ≡ stream_ended e)

waiting-sent :
    (u : Unicode) (c c' : Client) (es : List Effect) (line : Bytes) (lines : List Bytes) (e : Bytes)
    → read_round u c line ≡ ok (c', es)
    → read_waiting u c (line ∷ lines) e ≡ read_waiting u c' lines e
unfolding read_waiting
waiting-sent u c c' es line lines e h = rw (h, read_waiting) refl

waiting-resumed :
    (u : Unicode) (c c' : Client) (end : End) (oldest : Event) (line : Bytes) (lines : List Bytes)
    (e : Bytes)
    → read_round u c line ≡ err end
    → resume_at end c ≡ some (oldest, c')
    → read_waiting u c (line ∷ lines) e ≡ (
      oldest ∷ (read_waiting u c' lines e).0,
      (read_waiting u c' lines e).1,
      (read_waiting u c' lines e).2,
    )
unfolding read_waiting
waiting-resumed u c c' end oldest line lines e h k = rw (h, k, read_waiting) refl

room_or_full : (m n : ℕ) → (m < n) ⊎ (n ≤ m)
room_or_full m n = omega arith

abbrev Waits : Unicode → List Command → Type 0
Waits u ks =
    (c : Client) (e : Bytes)
    → c.drop ≡ false
    → 0 < c.capacity
    → length c.queue ≤ c.capacity
    → Kept c (map (event_for u) ks) e (read_waiting u c (map line_of ks) e)

sent-Kept :
    (u : Unicode) (ks : List Command) (k : Command) (c : Client) (e : Bytes)
    → Waits u ks
    → IsCommand k
    → c.drop ≡ false
    → 0 < c.capacity
    → length c.queue < c.capacity
    → Kept c (map (event_for u) (k ∷ ks)) e (read_waiting u c (map line_of (k ∷ ks)) e)
sent-Kept u ks k c e more h keeps some_room room =
    let c1 : Client = record c { queue = c.queue ++ event_for u k ∷ [] } in
    let wide = length-append c.queue (event_for u k ∷ []) in
    let (all, fits, drops, end) = more c1 e keeps some_room (omega (arith, room, wide)) in
    subst (Kept c (map (event_for u) (k ∷ ks)) e)
      (sym (
        waiting-sent u c c1 (observe_last_event (event_for u k).timestamp ∷ []) (line_of k)
          (map line_of ks) e (read_round-render u c k h room)))
      (all ∙ append_assoc c.queue (event_for u k ∷ []) (map (event_for u) ks), fits, drops, end)

resumed-Kept :
    (u : Unicode) (ks : List Command) (k : Command) (c : Client) (e : Bytes) (q : List Event)
    → Waits u ks
    → IsCommand k
    → c.drop ≡ false
    → 0 < c.capacity
    → c.queue ≡ q
    → length q ≡ c.capacity
    → Kept c (map (event_for u) (k ∷ ks)) e (read_waiting u c (map line_of (k ∷ ks)) e)
resumed-Kept u ks k c e [] more h keeps some_room same full =
    absurd (omega (arith, some_room, full))
resumed-Kept u ks k c e (oldest ∷ rest) more h keeps some_room same full =
    let c1 : Client = record c { queue = rest ++ event_for u k ∷ [] } in
    let wide = length-append rest (event_for u k ∷ []) in
    let (all, fits, drops, end) = more c1 e keeps some_room (omega (arith, full, wide)) in
    subst (Kept c (map (event_for u) (k ∷ ks)) e)
      (sym (
        waiting-resumed u c c1 (blocked (event_for u k)) oldest (line_of k) (map line_of ks) e
          (read_round-waits u c k h keeps (omega (arith, full, ap length same)))
          (unfold resume_at resume in rw same refl)))
      (
        ap (◌∷◌ oldest) all
            ∙ ap (◌∷◌ oldest) (append_assoc rest (event_for u k ∷ []) (map (event_for u) ks))
            ∙ ap (λ x. x ++ event_for u k ∷ map (event_for u) ks) (sym same),
        fits,
        drops,
        end,
      )

-- Without drop_on_full, whatever Redis prints and however small the channel is, where the dispatcher
-- takes an event whenever a send waits: the events that it takes and then those in the channel are
-- those that waited before and then the event of every command, in the order of the stream; none is
-- dropped, the channel never ends above its capacity, and the loop ends only where the stream does.
pub read_waiting-render :
    (u : Unicode) (ks : List Command) (c : Client) (e : Bytes)
    → All IsCommand ks
    → c.drop ≡ false
    → 0 < c.capacity
    → length c.queue ≤ c.capacity
    → Kept c (map (event_for u) ks) e (read_waiting u c (map line_of ks) e)
read_waiting-render u [] c e h keeps some_room fits =
    unfold read_waiting in (sym (append-nil c.queue), fits, refl, refl)
read_waiting-render u (k ∷ ks) c e h keeps some_room fits =
    let more : Waits u ks = λ c'. λ e'. read_waiting-render u ks c' e' h.1 in
    elim (room_or_full (length c.queue) c.capacity) [
      | inl room ↦ sent-Kept u ks k c e more h.0 keeps some_room room
      | inr full ↦
          resumed-Kept u ks k c e c.queue more h.0 keeps some_room refl (omega (arith, fits, full))
    ]
