-- ===== src/Resp/Laws.antt =====
-- What the two readers accept and refuse.
use redis_watcher.Base.{
  ℕ, ◌+◌, ◌≤◌, [], ◌∷◌, ◌++◌, ◌≡◌, ◌↔◌, inl, inr, refl, ap, suc, zero, arith, some,
}
use native.Mathlib.Nat.{suc-add}
use redis_watcher.Base.Bytes.{Bytes}
use redis_watcher.Base.Lists.{length, take, drop}
use redis_watcher.Base.Results.{ok, bind-eq-ok}
use redis_watcher.Base.Tests.{Option-cases}
use redis_watcher.Go.Int.{pos, parse_int}
use redis_watcher.Go.Text.{cut, cut-eq-some}
use redis_watcher.Resp.{
  Conn, chomp, read_line, simple_reply, bulk_length, read_body, read_simple_string,
  read_bulk_string,
}

-- The first byte of a line once its ends are cut off.
abbrev pub StartsWith : ℕ → Bytes → Type 0
StartsWith c s = (t : Bytes) × (s ≡ c ∷ t)

simple_reply_iff : (s : Bytes) → (simple_reply s ≡ ok tt) ↔ StartsWith b'+' s
unfolding simple_reply
simple_reply_iff [] = (λ h. cc, λ h. cc (h.1))
simple_reply_iff (c ∷ s) = (λ h. (s, ground arith), λ h. ground arith)

-- `ReadSimpleString` takes a reply for a success exactly when the line that arrives first is
-- complete and begins with `+`; it then has read that line and no more.
pub read_simple_string_iff :
    (c c' : Conn)
    → (read_simple_string c ≡ ok c')
      ↔ ((line : Bytes) × (read_line c ≡ ok (line, c')) × StartsWith b'+' (chomp line))
unfolding read_simple_string
read_simple_string_iff c c' = (
  λ h.
      let (r, line, later) = bind-eq-ok (read_line c) _ h in
      let (_, plus, done) = bind-eq-ok (simple_reply (chomp r.0)) _ later in
      (r.0, cc, (simple_reply_iff (chomp r.0)).0 plus),
  λ h. rw (h.1, (simple_reply_iff (chomp h.0)).1 h.2),
)

-- A complete line: what the stream held was the line, its newline, and what is left.
read_line_sound :
    (c c' : Conn) {line : Bytes}
    → read_line c ≡ ok (line, c')
    → (c.unread ≡ line ++ b'\n' ∷ c'.unread) × (c' ≡ record c { unread = c'.unread })
unfolding read_line
read_line_sound c c' {line} h = elim (Option-cases (cut b'\n' c.unread)) [
  | inl n ↦ ground arith
  | inr (p, q) ↦ ground (arith, cut-eq-some b'\n' c.unread {a = p.0} {b = p.1} q)
]

take_two :
    (n : ℕ) (s : Bytes)
    → n + 2 ≤ length s
    → (x : ℕ) × (y : ℕ) × (s ≡ take n s ++ x ∷ y ∷ drop (n + 2) s) × (length (take n s) ≡ n)
take_two zero (x ∷ y ∷ s) h = (x, y, refl, refl)
take_two zero (x ∷ []) h = absurd (omega arith)
take_two zero [] h = absurd (omega arith)
take_two (suc n) [] h = absurd (omega arith)
take_two (suc n) (c ∷ s) h =
    let (x, y, e, k) = take_two n s (omega arith) in (x, y, rw suc-add (ap (◌∷◌ c) e), ap suc k)

read_body_parts :
    (n : ℕ) (c c' : Conn) {a : Bytes}
    → read_body n c ≡ ok (a, c')
    → (n + 2 ≤ length c.unread)
      × (a ≡ take n c.unread)
      × (c' ≡ record c { unread = drop (n + 2) c.unread })
unfolding read_body
read_body_parts n c c' {a} h = ground arith

read_body_sound :
    (n : ℕ) (c c' : Conn) {a : Bytes}
    → read_body n c ≡ ok (a, c')
    → (x : ℕ) × (y : ℕ) × (c.unread ≡ a ++ x ∷ y ∷ c'.unread) × (length a ≡ n)
read_body_sound n c c' {a} h =
    let (fits, e, e') = read_body_parts n c c' h in
    let (x, y, whole, k) = take_two n c.unread fits in (x, y, cc, cc)

bulk_length_sound :
    (head : Bytes) {n : ℕ}
    → bulk_length head ≡ ok n
    → (digits : Bytes) × (head ≡ b'$' ∷ digits) × (parse_int digits ≡ some (pos n))
unfolding bulk_length
bulk_length_sound [] h = cc
bulk_length_sound (c ∷ s) {n} h = (s, ground arith, ground arith)

-- What a successful `ReadBulkString` read: a header line of `$` and a decimal length, exactly that
-- many bytes, which it returns, and two bytes behind them (it does not look whether they are a line
-- end); the rest of the stream is left for the next reply.
pub read_bulk_string_sound :
    (c c' : Conn) (a : Bytes)
    → read_bulk_string c ≡ ok (a, c')
    → (line : Bytes) × (digits : Bytes) × (x : ℕ) × (y : ℕ) × (chomp line ≡ b'$' ∷ digits)
      × (parse_int digits ≡ some (pos (length a)))
      × (c.unread ≡ line ++ b'\n' ∷ (a ++ x ∷ y ∷ c'.unread))
unfolding read_bulk_string
read_bulk_string_sound c c' a h =
    let (r, line, later) = bind-eq-ok (read_line c) _ h in
    let (n, size, body) = bind-eq-ok (bulk_length (chomp r.0)) _ later in
    let (l, l') = read_line_sound c r.1 line in
    let (digits, shape, number) = bulk_length_sound (chomp r.0) size in
    let (x, y, e, k) = read_body_sound n r.1 c' body in
    (r.0, digits, x, y, shape, rw k number, rw (← e) l)
