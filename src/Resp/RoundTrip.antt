-- ===== src/Resp/RoundTrip.antt =====
-- Reading back what was written: each bulk string, and a whole command.
use redis_watcher.Base.{
  ℕ, zero, suc, ◌+◌, ◌≤◌, false, List, [], ◌∷◌, ◌++◌, ◌≡◌, refl, ap, sym, arith, append_assoc, none,
  some,
}
use native.Mathlib.Nat.{suc-add}
use redis_watcher.Base.Bytes.{Bytes}
use redis_watcher.Base.Lists.{
  length, drop, All, All-append, take-length-append, drop-length-append, length-append,
}
use redis_watcher.Base.Results.{Result, ok, err, ◌>>=◌}
use redis_watcher.Base.Tests.{◌==◌, if◌then◌else◌}
use redis_watcher.Go.Int.{pos, negsuc, max_int, itoa, parse_int}
use redis_watcher.Go.Int.Laws.{IsDigit, itoa-IsDigit, parse_int-itoa}
use redis_watcher.Go.Text.{Lacks, cut_at, trim_right_keep}
use redis_watcher.Resp.{
  Error, Conn, empty_header, bad_length, crlf, is_crlf, chomp, bulk, bulks, command_bytes,
  read_line, read_body, bulk_length, read_bulk_string, max_alloc, write_command,
}

-- Digits are no line ends.
digits_plain : (s : Bytes) → All IsDigit s → Lacks b'\n' s × All (λ c. is_crlf c ≡ false) s
digits_plain [] h = (tt, tt)
digits_plain (c ∷ s) h = let (l, k) = digits_plain s h.1 in ((ground arith, l), (ground arith, k))

-- A line of a mark and digits, as the frames' headers are.
read_line_of :
    (mark : ℕ) (digits rest : Bytes) (c : Conn)
    → is_crlf mark ≡ false
    → All IsDigit digits
    → read_line (record c { unread = mark ∷ (digits ++ (crlf ++ rest)) })
      ≡ ok (mark ∷ (digits ++ (b'\r' ∷ [])), record c { unread = rest })
unfolding read_line
read_line_of mark digits rest c m h =
    let line = mark ∷ (digits ++ (b'\r' ∷ [])) in
    let lacks : Lacks b'\n' line = (
      ground arith,
      All-append _ digits (b'\r' ∷ []) (digits_plain digits h).0 (ground arith, tt),
    ) in
    let split : mark ∷ (digits ++ (crlf ++ rest)) ≡ line ++ b'\n' ∷ rest =
      ap (◌∷◌ mark) (sym (append_assoc digits (b'\r' ∷ []) (b'\n' ∷ rest))) in
    rw (split, cut_at b'\n' line rest lacks, read_line)

chomp_line :
    (mark : ℕ) (digits : Bytes)
    → is_crlf mark ≡ false
    → All IsDigit digits
    → chomp (mark ∷ (digits ++ (b'\r' ∷ []))) ≡ mark ∷ digits
chomp_line mark digits m h =
    trim_right_keep is_crlf (mark ∷ digits) (b'\r' ∷ []) (m, (digits_plain digits h).1) refl

bulk_length-itoa : (n : ℕ) → n ≤ max_int → bulk_length (b'$' ∷ itoa n) ≡ ok n
unfolding bulk_length
bulk_length-itoa n h = rw (parse_int-itoa n h)

drop_past : (a rest : Bytes) (x y : ℕ) → drop (length a + 2) (a ++ x ∷ y ∷ rest) ≡ rest
drop_past [] rest x y = refl
drop_past (c ∷ a) rest x y = rw suc-add (drop_past a rest x y)

read_body-append :
    (a rest : Bytes) (c : Conn)
    → length a + 2 ≤ max_alloc
    → read_body (length a) (record c { unread = a ++ (crlf ++ rest) })
      ≡ ok (a, record c { unread = rest })
unfolding read_body
read_body-append a rest c h = ground (
  arith,
  length-append a (crlf ++ rest),
  drop_past a rest b'\r' b'\n',
  take-length-append a (crlf ++ rest),
)

-- The length that a bulk string may have: one that fits the allocation, with its line end.
abbrev pub Fits : Bytes → Type 0
Fits a = length a + 2 ≤ max_alloc

bulk-append :
    (a rest : Bytes) → bulk a ++ rest ≡ b'$' ∷ (itoa (length a) ++ (crlf ++ (a ++ (crlf ++ rest))))
unfolding bulk
bulk-append a rest = simp append_assoc

-- `ReadBulkString` reads the argument that `WriteCommand` wrote, any bytes whatever, and leaves
-- what follows it.
pub read_bulk_string-bulk :
    (a rest : Bytes) (c : Conn)
    → Fits a
    → read_bulk_string (record c { unread = bulk a ++ rest }) ≡ ok (a, record c { unread = rest })
unfolding read_bulk_string
read_bulk_string-bulk a rest c h =
    let n = length a in
    rw (
      bulk-append a rest,
      read_line_of b'$' (itoa n) (a ++ (crlf ++ rest)) c refl (itoa-IsDigit n),
      chomp_line b'$' (itoa n) refl (itoa-IsDigit n),
      bulk_length-itoa n (omega arith),
      read_body-append a rest c h,
    )

-- The header of a command, `*` and a number.
unfoldable pub command_length : Bytes → Result Error ℕ
command_length [] = err empty_header
command_length (c ∷ s) =
    if c == b'*'
    then elim (parse_int s) [
      | none ↦ err (bad_length (c ∷ s))
      | some z ↦ elim z [ pos n ↦ ok n | negsuc _ ↦ err (bad_length (c ∷ s)) ]
    ]
    else err (bad_length (c ∷ s))

-- As many bulk strings as a command's header announces, read one by one.
unfoldable pub read_args : ℕ → Conn → Result Error (List Bytes × Conn)
read_args zero c = ok ([], c)
read_args (suc n) c = read_bulk_string c >>= λ r. read_args n r.1 >>= λ t. ok (r.0 ∷ t.0, t.1)

-- A command as a server reads it.
unfoldable pub read_command : Conn → Result Error (List Bytes × Conn)
read_command c = read_line c >>= λ r. command_length (chomp r.0) >>= λ n. read_args n r.1

read_args-bulks :
    (args : List Bytes) (rest : Bytes) (c : Conn)
    → All Fits args
    → read_args (length args) (record c { unread = bulks args ++ rest })
      ≡ ok (args, record c { unread = rest })
unfolding read_args bulks
read_args-bulks [] rest c h = refl
read_args-bulks (a ∷ args) rest c h = rw (
  append_assoc (bulk a) (bulks args) rest,
  read_bulk_string-bulk a (bulks args ++ rest) c h.0,
  read_args-bulks args rest c h.1,
)

command_length-itoa : (n : ℕ) → n ≤ max_int → command_length (b'*' ∷ itoa n) ≡ ok n
unfolding command_length
command_length-itoa n h = rw (parse_int-itoa n h)

command_bytes-append :
    (args : List Bytes) (rest : Bytes)
    → command_bytes args ++ rest ≡ b'*' ∷ (itoa (length args) ++ (crlf ++ (bulks args ++ rest)))
unfolding command_bytes
command_bytes-append args rest = simp append_assoc

read_command-command_bytes :
    (args : List Bytes) (rest : Bytes) (d : Conn)
    → length args ≤ max_int
    → All Fits args
    → read_command (record d { unread = command_bytes args ++ rest })
      ≡ ok (args, record d { unread = rest })
unfolding read_command
read_command-command_bytes args rest d n h =
    let k = length args in
    rw (
      command_bytes-append args rest,
      read_line_of b'*' (itoa k) (bulks args ++ rest) d refl (itoa-IsDigit k),
      chomp_line b'*' (itoa k) refl (itoa-IsDigit k),
      command_length-itoa k n,
      read_args-bulks args rest d h,
    )

sent-write_command :
    (args : List Bytes) (c c' : Conn)
    → write_command args c ≡ ok c'
    → c'.sent ≡ c.sent ++ command_bytes args
unfolding write_command
sent-write_command args c c' w = ground arith

-- A command that `WriteCommand` sends is read back as its arguments, in order and in full, from
-- what it put behind the bytes sent before, and nothing of what follows is taken. Each argument
-- fits one allocation of the reader.
pub read_command-write_command :
    (args : List Bytes) (c c' d : Conn) (rest : Bytes)
    → length args ≤ max_int
    → All Fits args
    → write_command args c ≡ ok c'
    → read_command (record d { unread = drop (length c.sent) c'.sent ++ rest })
      ≡ ok (args, record d { unread = rest })
read_command-write_command args c c' d rest n h w =
    rw (sent-write_command args c c' w, drop-length-append c.sent (command_bytes args))
      (read_command-command_bytes args rest d n h)
