-- ===== src/Resp.antt =====
-- internal/resp/resp.go: the RESP frames that the watcher writes and reads on a connection that it
-- owns. A connection is the bytes that will still arrive, the error behind them, and the bytes
-- sent; `accepts` says whether a flush that brings the sent bytes to a given text succeeds.
mod Laws
pub mod RoundTrip
mod Examples
use redis_watcher.Base.{
  ℕ, zero, suc, ◌+◌, ◌-◌, ◌^◌, Bool, true, false, ◌&&◌, ◌||◌, List, [], ◌∷◌, ◌++◌, Option, none,
  some,
}
use redis_watcher.Base.Bytes.{Bytes, codes, is_empty}
use redis_watcher.Base.Lists.{length, take, drop}
use redis_watcher.Base.Results.{Result, ok, err, ◌>>=◌}
use redis_watcher.Base.Tests.{ltb, leb, ◌==◌, if◌then◌else◌}
use redis_watcher.Go.Int.{ℤ, pos, negsuc, max_int, itoa, parse_int}
use redis_watcher.Go.Text.{cut, trim_right}

-- `broken` is any error of the connection that is not the end of the stream; `too_long` is the
-- panic of `make` at a length out of range.
pub data Error : Type 0 where
  eof unexpected_eof broken write_failed : Error
  empty_response : Error
  reply_error : Bytes → Error
  unexpected_response : Bytes → Error
  empty_header : Error
  not_bulk : Bytes → Error
  bad_length : Bytes → Error
  too_long : Error

pub record Conn : Type 0 where
  pub unread : Bytes
  pub at_end : Error
  pub sent : Bytes
  pub accepts : Bytes → Bool

abbrev pub crlf : Bytes
crlf = b'\r' ∷ b'\n' ∷ []

-- `fmt.Fprintf(w, "$%d\r\n%s\r\n", len(a), a)`
unfoldable pub bulk : Bytes → Bytes
bulk a = b'$' ∷ (itoa (length a) ++ (crlf ++ (a ++ crlf)))

unfoldable pub bulks : List Bytes → Bytes
bulks [] = []
bulks (a ∷ rest) = bulk a ++ bulks rest

-- What `WriteCommand` puts into the buffer.
unfoldable pub command_bytes : List Bytes → Bytes
command_bytes args = b'*' ∷ (itoa (length args) ++ (crlf ++ bulks args))

unfoldable pub write_command : List Bytes → Conn → Result Error Conn
write_command args c =
    let out = c.sent ++ command_bytes args in
    if c.accepts out then ok (record c { sent = out }) else err write_failed

-- `r.ReadString('\n')`, the delimiter cut off.
unfoldable pub read_line : Conn → Result Error (Bytes × Conn)
read_line c = elim (cut b'\n' c.unread) [
  | none ↦ err c.at_end
  | some (line, rest) ↦ ok (line, record c { unread = rest })
]

abbrev pub is_crlf : ℕ → Bool
is_crlf x = x == b'\r' || x == b'\n'

-- `strings.TrimRight(line, "\r\n")`; the newline that ends the line goes in any case.
abbrev pub chomp : Bytes → Bytes
chomp = trim_right is_crlf

unfoldable pub simple_reply : Bytes → Result Error (Unit {0})
simple_reply [] = err empty_response
simple_reply (c ∷ s) =
    if c == b'+'
    then ok tt
    else if c == b'-'
    then err (reply_error s)
    else err (unexpected_response (c ∷ s))

unfoldable pub read_simple_string : Conn → Result Error Conn
read_simple_string c = read_line c >>= λ r. simple_reply (chomp r.0) >>= λ _. ok r.1

-- The largest allocation that `make` grants on a 64-bit platform (runtime's maxAlloc).
abbrev pub max_alloc : ℕ
max_alloc = 2 ^ 48

-- `io.ReadFull` of n + 2 bytes, and `buf[:n]`.
unfoldable pub read_body : ℕ → Conn → Result Error (Bytes × Conn)
read_body n c =
    if ltb max_alloc (n + 2)
    then err too_long
    else if leb (n + 2) (length c.unread)
    then ok (take n c.unread, record c { unread = drop (n + 2) c.unread })
    else err (elim c.at_end [ eof ↦ (if is_empty c.unread then eof else unexpected_eof) | e ↦ e ])

unfoldable pub bulk_length : Bytes → Result Error ℕ
bulk_length [] = err empty_header
bulk_length (c ∷ s) =
    if c == b'-'
    then err (reply_error s)
    else if c == b'$'
    then elim (parse_int s) [
      | none ↦ err (bad_length (c ∷ s))
      | some z ↦ elim z [ pos n ↦ ok n | negsuc _ ↦ err eof ]
    ]
    else err (not_bulk (c ∷ s))

unfoldable pub read_bulk_string : Conn → Result Error (Bytes × Conn)
read_bulk_string c = read_line c >>= λ r. bulk_length (chomp r.0) >>= λ n. read_body n r.1

unfoldable pub auth_args : Bytes → Bytes → List Bytes
auth_args user pass =
    if is_empty user then codes "AUTH" ∷ pass ∷ [] else codes "AUTH" ∷ user ∷ pass ∷ []
