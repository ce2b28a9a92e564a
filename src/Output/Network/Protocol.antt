-- ===== src/Output/Network/Protocol.antt =====
-- The sink's use of its connection, over any calls of `Write` and `Close`.
use redis_watcher.Base.{
  ℕ, List, [], ◌∷◌, ◌++◌, Option, none, some, ◌≡◌, refl, arith, ap, ◌∙◌, inl, inr,
}
use redis_watcher.Base.Bytes.{Bytes}
use redis_watcher.Base.Results.{Result, ok, err, Result-cases}
use redis_watcher.Base.Tests.{◌==◌, if◌then◌else◌, Option-cases}
use redis_watcher.Event.{Event}
use redis_watcher.Output.Encode.{EncodeError}
use redis_watcher.Output.Network.{
  NetSink, WriteError, Effect, dialled, wrote, closed, Answers, write_on, send, send_encoded,
  net_write, net_close,
}

-- The protocol of a connection that is open or not: none is open when one is dialled, and a write
-- or a close is of the open one. `none` where a call breaks it, else the connection that is left.
unfoldable pub follow : Option ℕ → List Effect → Option (Option ℕ)
follow conn [] = some conn
follow none (dialled (ok c) ∷ es) = follow (some c) es
follow none (dialled (err e) ∷ es) = follow none es
follow (some c) (wrote d buf r ∷ es) =
    let rest = follow (some c) es in if c == d then rest else none
follow (some c) (closed d ∷ es) = let rest = follow none es in if c == d then rest else none
follow _ (_ ∷ es) = none

-- What arrived: the bytes of the writes without an error.
unfoldable pub delivered : List Effect → List Bytes
delivered [] = []
delivered (wrote c buf none ∷ es) = buf ∷ delivered es
delivered (_ ∷ es) = delivered es

pub data Call : Type 0 where
  write : Event → Answers → Call
  close : Call

-- The encoding of an event whose write returned no error.
abbrev pub accepted : Result EncodeError Bytes → Result WriteError (Unit {0}) → List Bytes
accepted (ok buf) (ok _) = buf ∷ []
accepted _ _ = []

follow-append :
    (a b : List Effect) (conn conn' : Option ℕ)
    → follow conn a ≡ some conn'
    → follow conn (a ++ b) ≡ follow conn' b
unfolding follow
follow-append [] b conn conn' h = cc
follow-append (dialled (ok c) ∷ a) b none conn' h = follow-append a b (some c) conn' h
follow-append (dialled (err e) ∷ a) b none conn' h = follow-append a b none conn' h
follow-append (wrote d buf r ∷ a) b (some c) conn' h =
    ground (arith, follow-append a b (some c) conn')
follow-append (closed d ∷ a) b (some c) conn' h = ground (arith, follow-append a b none conn')
follow-append (dialled r ∷ a) b (some c) conn' h = absurd (ground arith)
follow-append (wrote d buf r ∷ a) b none conn' h = absurd (ground arith)
follow-append (closed d ∷ a) b none conn' h = absurd (ground arith)

delivered-append : (a b : List Effect) → delivered (a ++ b) ≡ delivered a ++ delivered b
unfolding delivered
delivered-append [] b = refl
delivered-append (dialled r ∷ a) b = delivered-append a b
delivered-append (wrote c buf none ∷ a) b = ap (◌∷◌ buf) (delivered-append a b)
delivered-append (wrote c buf (some e) ∷ a) b = delivered-append a b
delivered-append (closed c ∷ a) b = delivered-append a b

-- What the calls keep, from the sink before to the result of a call.
abbrev pub Kept : NetSink → NetSink → List Effect → List Bytes → Type 0
Kept s s' es sent = (follow s.conn es ≡ some s'.conn) × (delivered es ≡ sent)

-- A call on a buffer.
abbrev SendKept : Bytes → NetSink → Result WriteError (Unit {0}) × NetSink × List Effect → Type 0
SendKept buf s (r, s', es) = Kept s s' es (accepted (ok buf) r)

send-SendKept : (buf : Bytes) (w : Answers) (s : NetSink) → SendKept buf s (send buf w s)
unfolding send write_on follow delivered
send-SendKept buf w s = elim (Option-cases s.conn) [
  | inr (c, open_) ↦ elim (Option-cases w.write) [
    | inl good ↦ rw (open_, good) (ground arith, refl)
    | inr (e, bad) ↦ rw (open_, bad) (ground arith, refl)
  ]
  | inl shut ↦ elim (Result-cases w.dial) [
    | inr (e, refused) ↦ rw (shut, refused) (refl, refl)
    | inl (c, fresh) ↦ elim (Option-cases w.write) [
      | inl good ↦ rw (shut, fresh, good) (ground arith, refl)
      | inr (e, bad) ↦ rw (shut, fresh, bad) (ground arith, refl)
    ]
  ]
]

send_encoded-Kept :
    (r : Result EncodeError Bytes) (w : Answers) (s : NetSink)
    → Kept s (send_encoded r w s).1 (send_encoded r w s).2 (accepted r (send_encoded r w s).0)
unfolding send_encoded follow delivered
send_encoded-Kept (err e) w s = (refl, refl)
send_encoded-Kept (ok buf) w s = send-SendKept buf w s

net_close-Kept : (s : NetSink) → Kept s (net_close s).0 (net_close s).1 []
unfolding net_close follow delivered
net_close-Kept s = elim (Option-cases s.conn) [
  | inl shut ↦ rw shut (refl, refl)
  | inr (c, open_) ↦ rw open_ (ground arith, refl)
]

module _ (encode : Event → Bytes → Result EncodeError Bytes) where
  -- The calls in order: the sink that is left, the calls of package net, and the encodings of the
  -- events whose write returned no error.
  unfoldable pub run : NetSink → List Call → NetSink × List Effect × List Bytes
  run s [] = (s, [], [])
  run s (close ∷ calls) =
      let (s', es) = net_close s in let (s'', es', sent) = run s' calls in (s'', es ++ es', sent)
  run s (write ev w ∷ calls) =
      let (r, s', es) = net_write encode ev w s in
      let (s'', es', sent) = run s' calls in
      (s'', es ++ es', accepted (encode ev s.opts.format) r ++ sent)

  pub net_write-Kept :
      (ev : Event) (w : Answers) (s : NetSink)
      → Kept s
          (net_write encode ev w s).1
          (net_write encode ev w s).2
          (accepted (encode ev s.opts.format) (net_write encode ev w s).0)
  unfolding net_write
  net_write-Kept ev w s = send_encoded-Kept (encode ev s.opts.format) w s

  Kept-append :
      (s s' s'' : NetSink) (es es' : List Effect) (sent sent' : List Bytes)
      → Kept s s' es sent
      → Kept s' s'' es' sent'
      → Kept s s'' (es ++ es') (sent ++ sent')
  Kept-append s s' s'' es es' sent sent' (f, d) (f', d') =
      (follow-append es es' s.conn s'.conn f ∙ f', delivered-append es es' ∙ rw (d, d') refl)

  -- Over any writes and closes, whatever the dialer and the socket answer: the sink dials only
  -- without an open connection and writes and closes only the open one, so that none is leaked or
  -- used after its close, and what is left open is the sink's connection. The bytes written without
  -- an error are the encodings of the events whose write reported success, in order and each once.
  pub run-follow :
      (s : NetSink) (calls : List Call)
      → (follow s.conn (run s calls).1 ≡ some (run s calls).0.conn)
        × (delivered (run s calls).1 ≡ (run s calls).2)
  unfolding run
  run-follow s [] = unfold follow delivered in (refl, refl)
  run-follow s (close ∷ calls) =
      let (s', es) = net_close s in
      Kept-append s s' (run s' calls).0 es (run s' calls).1 [] (run s' calls).2 (net_close-Kept s)
        (run-follow s' calls)
  run-follow s (write ev w ∷ calls) =
      let (r, s', es) = net_write encode ev w s in
      Kept-append s s' (run s' calls).0 es (run s' calls).1 (accepted (encode ev s.opts.format) r)
        (run s' calls).2 (net_write-Kept ev w s) (run-follow s' calls)
