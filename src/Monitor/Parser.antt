-- ===== src/Monitor/Parser.antt =====
-- internal/monitor/parser.go: one line of MONITOR output, parsed.
pub mod Args
pub mod Render
pub mod Header
pub mod RoundTrip
mod Examples
use redis_watcher.Base.{
  ℕ, zero, suc, ◌+◌, ◌-◌, ◌*◌, Bool, true, false, not, ◌&&◌, ◌||◌, List, [], ◌∷◌, ◌++◌, Option,
  none, some,
}
use redis_watcher.Base.Bytes.{Bytes, codes, is_empty, eq_bytes}
use redis_watcher.Base.Lists.{length, take, any}
use redis_watcher.Base.Results.{Result, ok, err, ◌>>=◌}
use redis_watcher.Base.Tests.{ltb, leb, ◌==◌, if◌then◌else◌}
use redis_watcher.Event.{Time, Source, Event}
use redis_watcher.Go.Int.{ℤ, pos, negsuc, neg, parse_int, parse_hex2}
use redis_watcher.Go.Text.{Unicode, to_upper, cut, cut_last, trim_left, trim_right}

pub data ParseError : Type 0 where
  empty_line : ParseError
  no_space : Bytes → ParseError
  bad_timestamp : Bytes → ParseError
  negative_timestamp : Bytes → ParseError
  bad_fraction : Bytes → ParseError
  no_open : Bytes → ParseError
  no_close : ParseError
  no_body_space : Bytes → ParseError
  bad_db : Bytes → ParseError
  unexpected_byte : ℕ → ℕ → ParseError
  unterminated : ParseError
  no_command : ParseError

abbrev pub commands_with_subcommand : List Bytes
commands_with_subcommand =
    codes "CLIENT"
    ∷ codes "CONFIG"
    ∷ codes "ACL"
    ∷ codes "SCRIPT"
    ∷ codes "DEBUG"
    ∷ codes "CLUSTER"
    ∷ codes "COMMAND"
    ∷ codes "FUNCTION"
    ∷ codes "LATENCY"
    ∷ codes "MEMORY"
    ∷ codes "MODULE"
    ∷ codes "OBJECT"
    ∷ codes "PUBSUB"
    ∷ codes "SLOWLOG"
    ∷ codes "XGROUP"
    ∷ codes "XINFO"
    ∷ []

-- The loop that pads a fraction of `n` bytes to nine digits, by its rounds.
unfoldable pub pad_nanos : ℕ → ℤ → ℤ
pad_nanos zero f = f
pad_nanos (suc k) (pos n) = pad_nanos k (pos (n * 10))
pad_nanos (suc k) (negsuc n) = pad_nanos k (neg (suc n * 10))

abbrev pub nanos_per_sec : ℕ
nanos_per_sec = 1_000_000_000

-- `time.Unix(sec, nsec)` for a `nsec` between -10^9 and 10^9, as it is here.
unfoldable pub unix_time : ℕ → ℤ → Time
unix_time sec (pos n) = record { sec = pos sec; nsec = n }
unix_time zero (negsuc n) = record { sec = negsuc 0; nsec = nanos_per_sec - suc n }
unix_time (suc s) (negsuc n) = record { sec = pos s; nsec = nanos_per_sec - suc n }

-- The fraction, cut to nine bytes, as nanoseconds; the sign that `ParseInt` takes is kept.
unfoldable pub parse_fraction : Bytes → Result ParseError ℤ
unfolding pad_nanos
parse_fraction [] = ok (pos 0)
parse_fraction (c ∷ s) =
    let f = take 9 (c ∷ s) in
    elim (parse_int f) [ none ↦ err (bad_fraction f) | some n ↦ ok (pad_nanos (9 - length f) n) ]

-- `secStr, fracStr`: the two halves of a timestamp; no fraction without a dot.
unfoldable pub split_timestamp : Bytes → Bytes × Bytes
split_timestamp s = elim (cut b'.' s) [ none ↦ (s, []) | some (a, b) ↦ (a, b) ]

unfoldable pub parse_halves : Bytes → Bytes × Bytes → Result ParseError Time
unfolding parse_fraction unix_time
parse_halves s (sec_text, frac_text) = elim (parse_int sec_text) [
  | none ↦ err (bad_timestamp s)
  | some (negsuc _) ↦ err (negative_timestamp s)
  | some (pos sec) ↦ parse_fraction frac_text >>= λ nsec. ok (unix_time sec nsec)
]

unfoldable pub parse_timestamp : Bytes → Result ParseError Time
unfolding parse_halves split_timestamp
parse_timestamp s = parse_halves s (split_timestamp s)

abbrev pub is_blank : ℕ → Bool
is_blank c = c == b' ' || c == b'\t'

abbrev at_quote : Bytes → Bool
at_quote [] = true
at_quote (c ∷ _) = c == b'"'

-- The look-ahead behind a `]`: blanks, and then a quote or the end of the line.
unfoldable pub is_boundary : Bytes → Bool
is_boundary s = at_quote (trim_left is_blank s)

-- The search for the closing bracket, from the byte behind `[`: the body and what follows it.
unfoldable pub find_close : Bytes → Option (Bytes × Bytes)
find_close [] = none
find_close (c ∷ s) =
    if c == b']' && is_boundary s
    then some ([], s)
    else elim (find_close s) [ none ↦ none | some (a, b) ↦ some (c ∷ a, b) ]

abbrev after_colon : Bytes → Bytes
after_colon [] = []
after_colon (c ∷ s) = if c == b':' then s else []

abbrev split_last : Bytes → Bytes × Bytes
split_last addr = elim (cut_last b':' addr) [ none ↦ (addr, []) | some (a, b) ↦ (a, b) ]

unfoldable pub split_host_port : Bytes → Bytes × Bytes
split_host_port [] = ([], [])
split_host_port (c ∷ s) =
    if c == b'['
    then elim (cut b']' s) [ none ↦ split_last (c ∷ s) | some (ip, rest) ↦ (ip, after_colon rest) ]
    else split_last (c ∷ s)

-- The text between the brackets: the database and the peer's address.
unfoldable pub parse_body : Bytes → Result ParseError (ℤ × Source)
parse_body body = elim (cut b' ' body) [
  | none ↦ err (no_body_space body)
  | some (db_text, addr) ↦ elim (parse_int db_text) [
    | none ↦ err (bad_db db_text)
    | some db ↦ let (ip, port) = split_host_port addr in ok (db, record { ip = ip; port = port })
  ]
]

unfoldable pub parse_bracket : Bytes → Result ParseError (ℤ × Source × Bytes)
parse_bracket [] = err (no_open [])
parse_bracket (c ∷ s) =
    if c == b'['
    then elim (find_close s) [
      | none ↦ err no_close
      | some (body, after) ↦ parse_body body >>= λ r. ok (r.0, r.1, trim_left is_blank after)
    ]
    else err (no_open (c ∷ s))

-- What the loop of `parseQuotedArgs` keeps; `skip` counts the bytes that the index has already
-- passed, where an escape took more than the byte at hand.
pub record Scan : Type 0 where
  pub skip : ℕ
  pub in_quote : Bool
  pub sb : Bytes
  pub args : List Bytes

-- An escape `\x`: the byte it stands for, and how many bytes it takes behind the backslash.
unfoldable pub unescape_hex : Bytes → ℕ × ℕ
unescape_hex [] = (b'x', 1)
unescape_hex (_ ∷ []) = (b'x', 1)
unescape_hex (h ∷ l ∷ _) = elim (parse_hex2 h l) [ none ↦ (b'x', 1) | some v ↦ (v, 3) ]

unfoldable pub unescape : ℕ → Bytes → ℕ × ℕ
unfolding unescape_hex
unescape next rest =
    if next == b'n'
    then (b'\n', 1)
    else if next == b'r'
    then (b'\r', 1)
    else if next == b't'
    then (b'\t', 1)
    else if next == b'a'
    then (7, 1)
    else if next == b'b'
    then (8, 1)
    else if next == b'x'
    then unescape_hex rest
    else (next, 1)

-- One byte inside quotes, with what follows it.
unfoldable pub quoted_byte : Scan → ℕ → Bytes → Scan
unfolding unescape
quoted_byte st c [] =
    if c == b'"'
    then record st { in_quote = false; args = st.args ++ st.sb ∷ []; sb = [] }
    else record st { sb = st.sb ++ c ∷ [] }
quoted_byte st c (next ∷ rest) =
    if c == b'\\'
    then (let (v, n) = unescape next rest in record st { sb = st.sb ++ v ∷ []; skip = n })
    else if c == b'"'
    then record st { in_quote = false; args = st.args ++ st.sb ∷ []; sb = [] }
    else record st { sb = st.sb ++ c ∷ [] }

-- One round of the loop at position `i`.
unfoldable pub arg_byte : ℕ → Scan → ℕ → Bytes → Result ParseError Scan
unfolding quoted_byte
arg_byte i st c s =
    if st.in_quote
    then ok (quoted_byte st c s)
    else if is_blank c
    then ok st
    else if c == b'"'
    then ok (record st { in_quote = true; sb = [] })
    else err (unexpected_byte c i)

unfoldable pub args_loop : ℕ → Scan → Bytes → Result ParseError (List Bytes)
unfolding arg_byte
args_loop i st [] = if st.in_quote then err unterminated else ok st.args
args_loop i st (c ∷ s) = elim st.skip [
  | zero ↦ arg_byte i st c s >>= λ st'. args_loop (i + 1) st' s
  | suc k ↦ args_loop (i + 1) (record st { skip = k }) s
]

abbrev pub scan_start : Scan
scan_start = record { skip = 0; in_quote = false; sb = []; args = [] }

unfoldable pub parse_quoted_args : Bytes → Result ParseError (List Bytes)
unfolding args_loop
parse_quoted_args = args_loop 0 scan_start

abbrev pub is_member : Bytes → List Bytes → Bool
is_member s = any (eq_bytes s)

unfoldable pub subcommand_of : Unicode → Bytes → List Bytes → Bytes
subcommand_of u cmd [] = []
subcommand_of u cmd (a ∷ _) = if is_member cmd commands_with_subcommand then to_upper u a else []

unfoldable pub build_event : Unicode → Time → ℤ → Source → List Bytes → Result ParseError Event
build_event u ts db src [] = err no_command
build_event u ts db src (a ∷ args) =
    let cmd = to_upper u a in
    ok (record {
      timestamp = ts;
      db = db;
      source = src;
      command = cmd;
      subcommand = subcommand_of u cmd args;
      args = args;
    })

abbrev is_crlf : ℕ → Bool
is_crlf x = x == b'\r' || x == b'\n'

abbrev strip_plus : Bytes → Bytes
strip_plus [] = []
strip_plus (c ∷ s) = if c == b'+' then s else c ∷ s

-- The line behind the optional `+`: timestamp, bracket, arguments.
unfoldable pub parse_fields : Unicode → Bytes → Bytes → Result ParseError Event
parse_fields u original line = elim (cut b' ' line) [
  | none ↦ err (no_space original)
  | some (stamp, rest) ↦
      if is_empty stamp
      then err (no_space original)
      else parse_timestamp stamp >>= λ ts. parse_bracket rest >>= λ b.
          parse_quoted_args b.2 >>= λ args. build_event u ts b.0 b.1 args
]

unfoldable pub parse : Unicode → Bytes → Result ParseError Event
parse u original =
    let line = trim_right is_crlf original in
    if is_empty line then err empty_line else parse_fields u original (strip_plus line)
