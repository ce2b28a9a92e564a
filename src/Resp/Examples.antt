-- ===== src/Resp/Examples.antt =====
-- Witnesses and runs of the RESP reader and writer.
use redis_watcher.Base.{true, List, [], ◌∷◌, ◌++◌, ◌≡◌, refl, arith}
use redis_watcher.Base.Bytes.{Bytes, codes}
use redis_watcher.Base.Lists.{drop}
use redis_watcher.Base.Results.{ok, err}
use redis_watcher.Go.Int.{itoa, parse_int, parse_digits}
use redis_watcher.Go.Text.{cut, trim_right}
use redis_watcher.Resp.{
  Conn, broken, eof, too_long, bulk, bulks, command_bytes, write_command, read_line, simple_reply,
  read_simple_string, read_body, bulk_length, read_bulk_string,
}
use redis_watcher.Resp.RoundTrip.{read_command, read_command-write_command}

abbrev conn : Bytes → Conn
conn s = record { unread = s; at_end = broken; sent = codes "x"; accepts = λ _. true }

abbrev info : List Bytes
info = codes "INFO" ∷ codes "replication" ∷ []

abbrev after_info : Conn
after_info = record (conn []) { sent = codes "x*2\r\n$4\r\nINFO\r\n$11\r\nreplication\r\n" }

write_info : write_command info (conn []) ≡ ok after_info
unfolding write_command command_bytes bulks bulk itoa
write_info = refl

read_null : read_bulk_string (conn (codes "$-1\r\n")) ≡ err eof
unfolding read_bulk_string read_line cut trim_right bulk_length parse_int parse_digits
read_null = refl

read_ok : read_bulk_string (conn (codes "$3\r\nabc\r\n+OK")) ≡ ok (codes "abc", conn (codes "+OK"))
unfolding read_bulk_string read_line cut trim_right bulk_length parse_int parse_digits read_body
read_ok = refl

-- A length that a server announces can make the reader panic.
read_huge : read_bulk_string (conn (codes "$9223372036854775807\r\n")) ≡ err too_long
unfolding read_bulk_string read_line cut trim_right bulk_length parse_int parse_digits read_body
read_huge = refl

read_simple : read_simple_string (conn (codes "+OK\r\n")) ≡ ok (conn [])
unfolding read_simple_string simple_reply read_line cut trim_right
read_simple = refl

read_command-write_command_example :
    read_command (record (conn []) { unread = drop 1 after_info.sent ++ codes "+" })
    ≡ ok (info, record (conn []) { unread = codes "+" })
read_command-write_command_example =
    read_command-write_command info (conn []) after_info (conn []) (codes "+") (omega arith)
      (omega arith) write_info
