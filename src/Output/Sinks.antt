-- ===== src/Output/Sinks.antt =====
-- The three sinks of internal/output: file.go, stdout.go and network.go. The rotated file is
-- lumberjack's and the standard output the system's: what a write of them returns is given.
use redis_watcher.Base.{Bool, List, [], ◌∷◌, map, Option, none, some, ◌≡◌, refl, ap, ◌∙◌}
use redis_watcher.Base.Bytes.{Bytes, codes}
use redis_watcher.Base.Results.{Result, ok, err}
use redis_watcher.Event.{Event}
use redis_watcher.Go.Int.{ℤ, pos, default_time}
use redis_watcher.Output.Encode.{EncodeError}
use redis_watcher.Output.Network.{
  NetSink, WriteError, Effect, dialled, wrote, closed, Answers, encode_failed, write_failed,
  net_write,
}
use redis_watcher.Output.Network.Protocol.{delivered, accepted, net_write-Kept}

pub record FileOptions : Type 0 where
  pub path : Bytes
  pub max_size_mb : ℤ
  pub max_backups : ℤ
  pub max_age_days : ℤ
  pub compress : Bool
  pub local_time : Bool
  pub format : Bytes

unfoldable pub new_file_sink : FileOptions → FileOptions
new_file_sink o = record o { max_size_mb = default_time o.max_size_mb (pos 100) }

-- A sink: the file's options, the format of the standard output, or the network sink.
pub data Sink : Type 0 where
  file : FileOptions → Sink
  stdout : Bytes → Sink
  net : NetSink → Sink

-- `Name`
abbrev pub sink_name : Sink → Bytes
sink_name (file o) = codes "file"
sink_name (stdout format) = codes "stdout"
sink_name (net s) = s.opts.network

abbrev pub format_of : Sink → Bytes
format_of (file o) = o.format
format_of (stdout format) = format
format_of (net s) = s.opts.format

-- A write to the file or the standard output, with its error where there is one, or a call of
-- package net.
pub data Handed : Type 0 where
  to_writer : Bytes → Option Bytes → Handed
  to_net : Effect → Handed

-- `Write` of the file and of the standard output, on the encoded event.
unfoldable pub writer_write :
    Result EncodeError Bytes → Option Bytes → Result WriteError (Unit {0}) × List Handed
writer_write (err e) answer = (err (encode_failed e), [])
writer_write (ok buf) none = (ok tt, to_writer buf none ∷ [])
writer_write (ok buf) (some e) = (err (write_failed e), to_writer buf (some e) ∷ [])

-- The interface's `Write`.
unfoldable pub sink_write :
    (Event → Bytes → Result EncodeError Bytes)
    → Event
    → Answers
    → Sink
    → Result WriteError (Unit {0}) × Sink × List Handed
unfolding writer_write
sink_write encode ev w (file o) =
    let (r, hs) = writer_write (encode ev o.format) w.write in (r, file o, hs)
sink_write encode ev w (stdout format) =
    let (r, hs) = writer_write (encode ev format) w.write in (r, stdout format, hs)
sink_write encode ev w (net s) =
    let (r, s', es) = net_write encode ev w s in (r, net s', map to_net es)

-- What arrived: the bytes of the writes without an error.
unfoldable pub arrived : List Handed → List Bytes
arrived [] = []
arrived (to_writer buf none ∷ hs) = buf ∷ arrived hs
arrived (to_net (wrote c buf none) ∷ hs) = buf ∷ arrived hs
arrived (_ ∷ hs) = arrived hs

arrived-map_to_net : (es : List Effect) → arrived (map to_net es) ≡ delivered es
unfolding arrived delivered
arrived-map_to_net [] = refl
arrived-map_to_net (dialled r ∷ es) = arrived-map_to_net es
arrived-map_to_net (wrote c buf none ∷ es) = ap (◌∷◌ buf) (arrived-map_to_net es)
arrived-map_to_net (wrote c buf (some e) ∷ es) = arrived-map_to_net es
arrived-map_to_net (closed c ∷ es) = arrived-map_to_net es

writer_write-arrived :
    (r : Result EncodeError Bytes) (answer : Option Bytes)
    → arrived (writer_write r answer).1 ≡ accepted r (writer_write r answer).0
unfolding writer_write arrived
writer_write-arrived (err e) answer = refl
writer_write-arrived (ok buf) none = refl
writer_write-arrived (ok buf) (some e) = refl

-- For each of the three sinks and whatever the file, the dialer and the socket answer: a write that
-- reports success has made exactly the encoding of the event arrive, once, and one that reports an
-- error has made nothing arrive.
pub sink_write-arrived :
    (encode : Event → Bytes → Result EncodeError Bytes) (ev : Event) (w : Answers) (s : Sink)
    → arrived (sink_write encode ev w s).2
      ≡ accepted (encode ev (format_of s)) (sink_write encode ev w s).0
unfolding sink_write
sink_write-arrived encode ev w (file o) = writer_write-arrived (encode ev o.format) w.write
sink_write-arrived encode ev w (stdout format) = writer_write-arrived (encode ev format) w.write
sink_write-arrived encode ev w (net s) =
    arrived-map_to_net (net_write encode ev w s).2 ∙ (net_write-Kept encode ev w s).1
