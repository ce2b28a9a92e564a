-- ===== src/Output/Network.antt =====
-- internal/output/network.go: the UDP or TCP sink and its connection. A connection is a number that
-- the dialer chooses; what the dialer and the socket answer in a call is given. Deadlines are left
-- out.
pub mod Protocol
use redis_watcher.Base.{ℕ, Bool, true, false, not, ◌&&◌, List, [], ◌∷◌, ◌++◌, Option, none, some}
use redis_watcher.Base.Bytes.{Bytes, codes, is_empty, eq_bytes}
use redis_watcher.Base.Results.{Result, ok, err}
use redis_watcher.Base.Tests.{if◌then◌else◌}
use redis_watcher.Event.{Event}
use redis_watcher.Go.Int.{ℤ, pos, default_time}
use redis_watcher.Output.Encode.{EncodeError}

pub record NetOptions : Type 0 where
  pub network : Bytes
  pub address : Bytes
  pub timeout : ℤ
  pub keepalive : ℤ
  pub format : Bytes

-- The options with the connection, where one is open.
pub record NetSink : Type 0 where
  pub opts : NetOptions
  pub conn : Option ℕ

pub data NetError : Type 0 where
  bad_network : Bytes → NetError
  address_required : NetError

unfoldable pub new_net_sink : NetOptions → Result NetError NetSink
new_net_sink o =
    if not (eq_bytes o.network (codes "udp")) && not (eq_bytes o.network (codes "tcp"))
    then err (bad_network o.network)
    else if is_empty o.address
    then err address_required
    else ok record {
      opts = record o { timeout = default_time o.timeout (pos 5_000_000_000) };
      conn = none;
    }

-- What `Write` can return.
pub data WriteError : Type 0 where
  encode_failed : EncodeError → WriteError
  dial_failed : Bytes → WriteError
  write_failed : Bytes → WriteError

-- Calls of package net: a dial with its result, a write with its error where there is one, a close.
pub data Effect : Type 0 where
  dialled : Result Bytes ℕ → Effect
  wrote : ℕ → Bytes → Option Bytes → Effect
  closed : ℕ → Effect

-- The answers to one call of `Write`.
pub record Answers : Type 0 where
  pub dial : Result Bytes ℕ
  pub write : Option Bytes

-- The write on an open connection, which a failure closes.
unfoldable pub write_on :
    Bytes → Option Bytes → ℕ → NetSink → Result WriteError (Unit {0}) × NetSink × List Effect
write_on buf none c s = (ok tt, record s { conn = some c }, wrote c buf none ∷ [])
write_on buf (some e) c s =
    (err (write_failed e), record s { conn = none }, wrote c buf (some e) ∷ closed c ∷ [])

abbrev pub after {ℓ κ} :
    {A : Type ℓ} {B : Type κ} → List Effect → A × B × List Effect → A × B × List Effect
after es (a, b, es') = (a, b, es ++ es')

-- The write of an encoded event: a connection is dialled first where there is none.
unfoldable pub send :
    Bytes → Answers → NetSink → Result WriteError (Unit {0}) × NetSink × List Effect
unfolding write_on
send buf w s = elim s.conn [
  | some c ↦ write_on buf w.write c s
  | none ↦ elim w.dial [
    | err e ↦ (err (dial_failed e), s, dialled (err e) ∷ [])
    | ok c ↦ after (dialled (ok c) ∷ []) (write_on buf w.write c s)
  ]
]

unfoldable pub send_encoded :
    Result EncodeError Bytes
    → Answers
    → NetSink
    → Result WriteError (Unit {0}) × NetSink × List Effect
unfolding send
send_encoded (err e) w s = (err (encode_failed e), s, [])
send_encoded (ok buf) w s = send buf w s

-- `Write`
unfoldable pub net_write :
    (Event → Bytes → Result EncodeError Bytes)
    → Event
    → Answers
    → NetSink
    → Result WriteError (Unit {0}) × NetSink × List Effect
unfolding send_encoded
net_write encode ev w s = send_encoded (encode ev s.opts.format) w s

-- `Close`; its error is passed on unchanged.
unfoldable pub net_close : NetSink → NetSink × List Effect
net_close s = elim s.conn [ none ↦ (s, []) | some c ↦ (record s { conn = none }, closed c ∷ []) ]
