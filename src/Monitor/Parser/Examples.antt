-- ===== src/Monitor/Parser/Examples.antt =====
-- Witnesses and runs of the parser.
use redis_watcher.Base.{[], ◌∷◌, ◌≡◌, refl, arith}
use redis_watcher.Base.Bytes.{Bytes, codes, eq_bytes}
use redis_watcher.Base.Results.{ok}
use redis_watcher.Go.Int.{pos, parse_int, parse_digits, parse_hex2}
use redis_watcher.Go.Text.{Unicode, cut, cut_last, trim_left, trim_right, to_upper, upper_byte}
use redis_watcher.Monitor.Parser.Render.{Line, inet6, render}
use redis_watcher.Monitor.Parser.RoundTrip.{IsLine, event_of, parse-render}
use redis_watcher.Monitor.Parser.{
  parse, parse_fields, parse_timestamp, parse_bracket, parse_body, find_close, is_boundary,
  split_host_port, parse_quoted_args, build_event, subcommand_of,
}

abbrev tables : Unicode
tables = record { map_upper = λ s. s; map_lower = λ s. s; trim_func = λ s. s }

abbrev sample : Bytes
sample = codes "+1583789993.940458 [0 [::1]:54302] \"config\" \"get\" \"a \\\"b\\\" \\x41\\n\"\r\n"

parse-sample :
    parse tables sample
    ≡ ok (record {
      timestamp = record { sec = pos 1583789993; nsec = 940458000 };
      db = pos 0;
      source = record { ip = codes "::1"; port = codes "54302" };
      command = codes "CONFIG";
      subcommand = codes "GET";
      args = codes "get" ∷ codes "a \"b\" A\n" ∷ [];
    })
unfolding parse parse_fields parse_timestamp parse_bracket parse_body find_close is_boundary
    split_host_port parse_quoted_args build_event subcommand_of cut cut_last trim_left trim_right
    parse_int parse_digits parse_hex2 to_upper upper_byte eq_bytes
parse-sample = refl

-- A signed fraction is taken, and its sign counts as a digit of the padding.
negative_fraction : parse_timestamp (codes "5.-25") ≡ ok (record { sec = pos 4; nsec = 975000000 })
unfolding parse_timestamp parse_int parse_digits cut
negative_fraction = refl

abbrev line : Line
line = record {
  sec = 1583789993;
  usec = 940458;
  db = pos 2;
  peer = inet6 (codes "::1") (codes "54302");
  args = codes "set" ∷ codes "key" ∷ (0 ∷ 255 ∷ b'"' ∷ []) ∷ [];
}

line-IsLine : IsLine line
line-IsLine = record {
  sec_fits = omega arith;
  usec_fits = omega arith;
  db_fits = omega arith;
  peer_fits = ground arith;
  args_fit = omega arith;
}

parse-render_example :
    parse tables (render line)
    ≡ ok (event_of tables line (codes "set") (codes "key" ∷ (0 ∷ 255 ∷ b'"' ∷ []) ∷ []))
parse-render_example =
    parse-render tables line (codes "set") (codes "key" ∷ (0 ∷ 255 ∷ b'"' ∷ []) ∷ []) refl
      line-IsLine
