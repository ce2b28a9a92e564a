-- ===== src/Monitor/Parser/RoundTrip.antt =====
-- A whole line: what Redis prints for a command is parsed to that command.
use redis_watcher.Base.{
  ℕ, ◌*◌, ◌≤◌, ◌<◌, false, List, [], ◌∷◌, ◌++◌, ◌≡◌, arith, append_assoc, refl, ap, sym, inl,
}
use redis_watcher.Base.Bytes.{Bytes, is_empty}
use redis_watcher.Base.Lists.{All, All-append}
use redis_watcher.Base.Results.{ok}
use redis_watcher.Event.{Event}
use redis_watcher.Go.Int.{pos, max_int, itoa, itoa_ℤ}
use redis_watcher.Go.Int.Laws.{IsInt, itoa-IsDigit}
use redis_watcher.Go.Text.{Unicode, Lacks, cut_at, to_upper, trim_right, trim_right-append}
use redis_watcher.Monitor.Parser.{
  parse, parse_fields, parse_bracket, build_event, subcommand_of, is_crlf,
}
use redis_watcher.Monitor.Parser.Args.{parse_quoted_args-tail}
use redis_watcher.Monitor.Parser.Header.{
  IsPeer, parse_timestamp-render, parse_bracket-print, digits_lack, six_digits-IsDigit,
}
use redis_watcher.Monitor.Parser.Render.{
  IsByte, Line, print_peer, source_of, six_digits, repr_bytes, repr_args, stamp_of, tail_of, render,
}

EndsQuote : Bytes → Type 0
EndsQuote s = (x : Bytes) × (s ≡ x ++ b'"' ∷ [])

EndsQuote-append : (t s : Bytes) → EndsQuote s → EndsQuote (t ++ s)
unfolding EndsQuote
EndsQuote-append t s (x, e) = (t ++ x, rw e (sym (append_assoc t x (b'"' ∷ []))))

EndsQuote-cons : (c : ℕ) (s : Bytes) → EndsQuote s → EndsQuote (c ∷ s)
unfolding EndsQuote
EndsQuote-cons c s (x, e) = (c ∷ x, ap (◌∷◌ c) e)

EndsQuote-repr_args : (a : Bytes) (args : List Bytes) → EndsQuote (repr_args (a ∷ args))
unfolding repr_args EndsQuote
EndsQuote-repr_args a [] = EndsQuote-append (b' ' ∷ b'"' ∷ repr_bytes a) _ ([], refl)
EndsQuote-repr_args a (b ∷ args) =
    EndsQuote-append (b' ' ∷ b'"' ∷ repr_bytes a) _
      (EndsQuote-cons b'"' _ (EndsQuote-repr_args b args))

trim_right-EndsQuote : (s : Bytes) → EndsQuote s → trim_right is_crlf (s ++ b'\r' ∷ b'\n' ∷ []) ≡ s
unfolding EndsQuote
trim_right-EndsQuote s (x, e) =
    rw
      (
        e,
        append_assoc x (b'"' ∷ []) (b'\r' ∷ b'\n' ∷ []),
        trim_right-append is_crlf x (b'\r' ∷ b'\n' ∷ []) b'"' refl,
      )
      (unfold trim_right in refl)

-- The lines that Redis prints: a command is at hand, numbers in range, bytes below 256.
pub record IsLine (l : Line) : Type 0 where
  pub sec_fits : l.sec ≤ max_int
  pub usec_fits : l.usec < 1000000
  pub db_fits : IsInt l.db
  pub peer_fits : IsPeer l.peer
  pub args_fit : All (All IsByte) l.args

-- The event that a line stands for.
unfoldable pub event_of : Unicode → Line → Bytes → List Bytes → Event
event_of u l a rest = record {
  timestamp = record { sec = pos l.sec; nsec = l.usec * 1000 };
  db = l.db;
  source = source_of l.peer;
  command = to_upper u a;
  subcommand = subcommand_of u (to_upper u a) rest;
  args = rest;
}

stamp-Lacks : (sec usec : ℕ) → Lacks b' ' (itoa sec ++ b'.' ∷ six_digits usec)
stamp-Lacks sec usec =
    All-append _ (itoa sec) (b'.' ∷ six_digits usec)
      (digits_lack b' ' _ (inl (omega arith)) (itoa-IsDigit sec))
      (λ e. omega arith, digits_lack b' ' _ (inl (omega arith)) (six_digits-IsDigit usec))

is_empty-append : (s t : Bytes) (c : ℕ) → is_empty (s ++ c ∷ t) ≡ false
is_empty-append [] t c = refl
is_empty-append (x ∷ s) t c = refl

parse_bracket-tail :
    (l : Line) (a : Bytes) (rest : List Bytes)
    → l.args ≡ a ∷ rest
    → IsLine l
    → parse_bracket (tail_of l)
      ≡ ok (l.db, source_of l.peer, b'"' ∷ (repr_bytes a ++ (b'"' ∷ repr_args rest)))
unfolding tail_of repr_args
parse_bracket-tail l a rest e v = rw e (
    parse_bracket-print l.db l.peer (repr_bytes a ++ (b'"' ∷ repr_args rest)) v.db_fits v.peer_fits)

parse_fields-render :
    (u : Unicode) (l : Line) (a : Bytes) (rest : List Bytes) (original : Bytes)
    → l.args ≡ a ∷ rest
    → IsLine l
    → parse_fields u original (stamp_of l ++ b' ' ∷ tail_of l) ≡ ok (event_of u l a rest)
unfolding stamp_of parse_fields event_of build_event
parse_fields-render u l a rest original e v =
    let stamp = itoa l.sec ++ b'.' ∷ six_digits l.usec in
    rw (
      cut_at b' ' stamp (tail_of l) (stamp-Lacks l.sec l.usec),
      parse_fields,
      is_empty-append (itoa l.sec) (six_digits l.usec) b'.',
      parse_timestamp-render l.sec l.usec v.sec_fits v.usec_fits,
      parse_bracket-tail l a rest e v,
      parse_quoted_args-tail a rest (rw e at v.args_fit),
    )

EndsQuote-tail :
    (l : Line) (a : Bytes) (rest : List Bytes) → l.args ≡ a ∷ rest → EndsQuote (tail_of l)
unfolding tail_of
EndsQuote-tail l a rest e = EndsQuote-cons b'[' _ (
    EndsQuote-append (itoa_ℤ l.db) _ (
      EndsQuote-cons b' ' _ (
        EndsQuote-append (print_peer l.peer) _
          (EndsQuote-cons b']' _ (rw e (EndsQuote-repr_args a rest))))))

-- What Redis prints for a command, with the `+` and the line end that RESP puts round it, is
-- parsed to that command: the time to the microsecond, the database, the peer's address and port
-- (IPv4, IPv6 or a bare name), the command in upper case and every argument byte for byte.
pub parse-render :
    (u : Unicode) (l : Line) (a : Bytes) (rest : List Bytes)
    → l.args ≡ a ∷ rest
    → IsLine l
    → parse u (render l) ≡ ok (event_of u l a rest)
unfolding parse render
parse-render u l a rest e v =
    let body = stamp_of l ++ b' ' ∷ tail_of l in
    let ends =
      EndsQuote-append (stamp_of l) _ (EndsQuote-cons b' ' _ (EndsQuote-tail l a rest e)) in
    rw (trim_right-EndsQuote (b'+' ∷ body) (EndsQuote-cons b'+' body ends))
      (parse_fields-render u l a rest _ e v)
