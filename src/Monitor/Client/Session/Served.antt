-- ===== src/Monitor/Client/Session/Served.antt =====
-- `runOnce` on a server that accepts the watcher, and the connection gauge on any server.
use redis_watcher.Base.{
  ◌+◌, ◌≤◌, Bool, true, false, List, [], ◌∷◌, ◌++◌, map, append_assoc, ◌≡◌, ◌⊎◌, inl, inr, refl, ap,
  sym,
}
use redis_watcher.Base.Bytes.{Bytes, codes, is_empty}
use redis_watcher.Base.Lists.{length, All}
use redis_watcher.Base.Results.{Result, ok, err, Result-cases}
use redis_watcher.Base.Tests.{if◌then◌else◌}
use redis_watcher.Go.Text.{Unicode, cut, trim_right}
use redis_watcher.Monitor.Client.{Client, Effect, stream_ended, read_loop}
use redis_watcher.Monitor.Client.Session.{
  SessionError, SessionEffect, set_monitor_connected, observe_monitor_session, while_reading, ended,
  auth_not_sent, auth_failed, monitor_not_sent, monitor_rejected, request, authenticate, handshake,
  lines_onto, end_text, read_session, after_handshake, run_once,
}
use redis_watcher.Monitor.Client.Session.Handshake.{OneLine, stream_of, lines_onto-stream_of}
use redis_watcher.Monitor.Client.Stream.{Command, IsCommand, event_for, read_loop-render}
use redis_watcher.Resp.{
  Error, Conn, write_command, read_simple_string, read_line, simple_reply, auth_args, command_bytes,
}

-- The server's reply to AUTH and to MONITOR.
abbrev pub ok_line : Bytes
ok_line = codes "+OK" ++ b'\r' ∷ b'\n' ∷ []

abbrev pub greeting : Bytes → Bytes
greeting password = if is_empty password then ok_line else ok_line ++ ok_line

-- What the watcher sends before the stream.
abbrev pub asked : Bytes → Bytes → Bytes
asked username password =
    (if is_empty password then [] else command_bytes (auth_args username password))
    ++ command_bytes (codes "MONITOR" ∷ [])

read_simple_string-ok :
    (sent : Bytes) (accepts : Bytes → Bool) (at_end : Error) (rest : Bytes)
    → read_simple_string
        record { unread = ok_line ++ rest; at_end = at_end; sent = sent; accepts = accepts }
      ≡ ok record { unread = rest; at_end = at_end; sent = sent; accepts = accepts }
unfolding read_simple_string read_line cut trim_right simple_reply
read_simple_string-ok sent accepts at_end rest = refl

write_command-ok :
    (args : List Bytes) (c : Conn)
    → ((t : Bytes) → c.accepts t ≡ true)
    → write_command args c ≡ ok (record c { sent = c.sent ++ command_bytes args })
unfolding write_command
write_command-ok args c all = rw (all (c.sent ++ command_bytes args)) refl

module _ (at_end : Error) (accepts : Bytes → Bool) (all : (t : Bytes) → accepts t ≡ true) where
  -- A connection with the bytes that will arrive and those that were sent.
  abbrev conn : Bytes → Bytes → Conn
  conn unread sent = record { unread = unread; at_end = at_end; sent = sent; accepts = accepts }

  request-ok :
      (not_sent refused : Error → SessionError) (args : List Bytes) (rest sent : Bytes)
      → request not_sent refused args (conn (ok_line ++ rest) sent)
        ≡ ok (conn rest (sent ++ command_bytes args))
  unfolding request
  request-ok not_sent refused args rest sent =
      rw
        (
          write_command-ok args (conn (ok_line ++ rest) sent) all,
          read_simple_string-ok (sent ++ command_bytes args) accepts at_end rest,
        )
        refl

  handshake-greeting :
      (username password rest sent : Bytes)
      → handshake username password (conn (greeting password ++ rest) sent)
        ≡ ok (conn rest (sent ++ asked username password))
  unfolding handshake authenticate
  handshake-greeting username [] rest sent =
      request-ok monitor_not_sent monitor_rejected (codes "MONITOR" ∷ []) rest sent
  handshake-greeting username (x ∷ password) rest sent =
      let auth = auth_args username (x ∷ password) in
      rw
        (
          request-ok auth_not_sent auth_failed auth (ok_line ++ rest) sent,
          sym (append_assoc sent (command_bytes auth) (command_bytes (codes "MONITOR" ∷ []))),
        )
        (request-ok monitor_not_sent monitor_rejected (codes "MONITOR" ∷ []) rest
          (sent ++ command_bytes auth))

  -- Against a server that answers AUTH and MONITOR with +OK and then prints commands until the
  -- stream ends, the watcher sends AUTH, where there is a password, and MONITOR, and each command
  -- is queued as its event, in order, where the queue has room.
  pub run_once-stream_of :
      (u : Unicode) (username password sent : Bytes) (ks : List Command) (c : Client)
      → All IsCommand ks
      → All OneLine ks
      → length c.queue + length ks ≤ c.capacity
      → let start = conn (greeting password ++ stream_of ks) sent in
        let r = run_once u username password (ok start) c in
        (handshake username password start
          ≡ ok (conn (stream_of ks) (sent ++ asked username password)))
        × (r.0 ≡ record c { queue = c.queue ++ map (event_for u) ks })
        × (r.2 ≡ ended (stream_ended (end_text at_end)))
  unfolding run_once after_handshake read_session
  run_once-stream_of u username password sent ks c h one room =
      let shook = handshake-greeting username password (stream_of ks) sent in
      let (queue, end) = read_loop-render u ks c (end_text at_end) h room in
      (
        shook,
        rw (shook, lines_onto-stream_of ks h one) queue,
        rw (shook, lines_onto-stream_of ks h one) (ap ended end),
      )

-- The states of the connection that are reported.
abbrev pub reports : List SessionEffect → List Bool
reports [] = []
reports (set_monitor_connected b ∷ es) = b ∷ reports es
reports (_ ∷ es) = reports es

reports-reading :
    (es : List Effect) (tail : List SessionEffect)
    → reports (map while_reading es ++ tail) ≡ reports tail
reports-reading [] tail = refl
reports-reading (e ∷ es) tail = reports-reading es tail

-- Whatever the server does, the gauge of the connection is not left at 1: either nothing is
-- reported and no event is queued, or the dial and the exchange with the server have succeeded, the
-- gauge is raised, and it is lowered when the connection ends.
pub run_once-reports :
    (u : Unicode) (username password : Bytes) (dialled : Result Bytes Conn) (c : Client)
    → let r = run_once u username password dialled c in
      ((reports r.1 ≡ []) × (r.0 ≡ c))
      ⊎ ((reports r.1 ≡ true ∷ false ∷ [])
          × ((opened shook : Conn) × (dialled ≡ ok opened)
              × (handshake username password opened ≡ ok shook)))
unfolding run_once after_handshake read_session
run_once-reports u username password (err e) c = inl (refl, refl)
run_once-reports u username password (ok opened) c =
    elim (Result-cases (handshake username password opened)) [
      | inr (e, bad) ↦ inl (rw bad refl, rw bad refl)
      | inl (shook, good) ↦
          let loop = read_loop u c (lines_onto [] shook.unread) (end_text shook.at_end) in
          let tail = set_monitor_connected false ∷ observe_monitor_session ∷ [] in
          inr (rw good (ap (◌∷◌ true) (reports-reading loop.1 tail)), (opened, shook, refl, good))
    ]
