-- ===== src/Monitor/Client/Session.antt =====
-- internal/monitor/client.go: `runOnce`, one connection from the dial to its end. What the dial
-- gives is given; cancelling the context and a change of the role close the connection, which the
-- reads then see as an error.
pub mod Handshake
pub mod Served
pub mod Ends
use redis_watcher.Base.{Bool, true, false, not, ◌&&◌, List, [], ◌∷◌, ◌++◌, map}
use redis_watcher.Base.Bytes.{Bytes, codes, is_empty, eq_bytes}
use redis_watcher.Base.Results.{Result, ok, err, wrap, ◌>>=◌}
use redis_watcher.Base.Tests.{◌==◌, if◌then◌else◌}
use redis_watcher.Go.Text.{Unicode}
use redis_watcher.Monitor.Client.{
  Client, Effect, End, server_error, stream_ended, blocked, Outcome, cancelled, failed, read_loop,
}
use redis_watcher.Resp.{Error, Conn, eof, write_command, read_simple_string, auth_args}

-- The errors of `runOnce`; the last is that of the reading loop.
pub data SessionError : Type 0 where
  dial_failed : Bytes → SessionError
  auth_not_sent : Error → SessionError
  auth_failed : Error → SessionError
  monitor_not_sent : Error → SessionError
  monitor_rejected : Error → SessionError
  ended : End → SessionError

-- The calls of the metrics sink, with those of the reading loop.
pub data SessionEffect : Type 0 where
  set_monitor_connected : Bool → SessionEffect
  observe_monitor_session : SessionEffect
  while_reading : Effect → SessionEffect

-- A command and the reading of its reply, with the names of the two errors.
unfoldable pub request :
    (Error → SessionError) → (Error → SessionError) → List Bytes → Conn → Result SessionError Conn
request not_sent refused args conn =
    wrap not_sent (write_command args conn) >>= λ asked. wrap refused (read_simple_string asked)

unfoldable pub authenticate : Bytes → Bytes → Conn → Result SessionError Conn
unfolding request
authenticate username password conn =
    if is_empty password
    then ok conn
    else request auth_not_sent auth_failed (auth_args username password) conn

unfoldable pub handshake : Bytes → Bytes → Conn → Result SessionError Conn
unfolding authenticate request
handshake username password conn = authenticate username password conn >>= λ authed.
    request monitor_not_sent monitor_rejected (codes "MONITOR" ∷ []) authed

-- The lines that `ReadString('\n')` returns, one call after the other, behind the bytes that it has
-- read already. What follows the last newline is returned with an error only.
unfoldable pub lines_onto : Bytes → Bytes → List Bytes
lines_onto acc [] = []
lines_onto acc (c ∷ s) =
    let line = acc ++ c ∷ [] in
    let rest = lines_onto [] s in
    let more = lines_onto line s in if c == b'\n' then line ∷ rest else more

-- The text of the error at the end of the stream.
abbrev pub end_text : Error → Bytes
end_text eof = codes "server closed connection"
end_text _ = codes "read"

-- The reading between the two reports of the connection's state.
unfoldable pub read_session : Unicode → Client → Conn → Client × List SessionEffect × SessionError
read_session u c conn =
    let (c', es, end) = read_loop u c (lines_onto [] conn.unread) (end_text conn.at_end) in
    (
      c',
      set_monitor_connected true
          ∷ (map while_reading es ++ set_monitor_connected false ∷ observe_monitor_session ∷ []),
      ended end,
    )

unfoldable pub after_handshake :
    Unicode → Client → Result SessionError Conn → Client × List SessionEffect × SessionError
unfolding read_session
after_handshake u c (err e) = (c, [], e)
after_handshake u c (ok conn) = read_session u c conn

-- `runOnce`
unfoldable pub run_once :
    Unicode
    → Bytes
    → Bytes
    → Result Bytes Conn
    → Client
    → Client × List SessionEffect × SessionError
unfolding after_handshake
run_once u username password (err e) c = (c, [], dial_failed e)
run_once u username password (ok conn) c = after_handshake u c (handshake username password conn)

-- How `Run` takes the error of `runOnce`, which never returns nil: `is_context` says which errors of
-- the dial `errors.Is` takes for the context's, and `done` whether the context has ended. Behind
-- the handshake the context's error is returned by a read that fails other than at the end of the
-- stream, and by a send that blocks until then.
unfoldable pub session_outcome : (Bytes → Bool) → Bool → SessionError → Outcome
session_outcome is_context done (dial_failed e) = if is_context e then cancelled else failed
session_outcome is_context done (ended (stream_ended e)) =
    if done && not (eq_bytes e (end_text eof)) then cancelled else failed
session_outcome is_context done (ended (blocked ev)) = cancelled
session_outcome is_context done _ = failed
