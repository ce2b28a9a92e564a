-- ===== src/Monitor/Parser/Header.antt =====
-- The timestamp and the bracket of a line that Redis prints.
use redis_watcher.Base.{
  ℕ, suc, ◌*◌, ◌/◌, ◌≤◌, ◌<◌, true, false, [], ◌∷◌, ◌++◌, ◌≡◌, ◌≢◌, some, ◌⊎◌, inl, inr, arith,
  append_assoc, refl, ap, ◌∙◌, sym,
}
use redis_watcher.Base.Bytes.{Bytes}
use redis_watcher.Base.Lists.{All}
use redis_watcher.Base.Results.{ok}
use redis_watcher.Event.{Source}
use redis_watcher.Go.Int.{ℤ, pos, negsuc, max_int, itoa, itoa_ℤ, scan}
use redis_watcher.Go.Int.Laws.{
  IsDigit, IsInt, itoa-IsDigit, parse_int-itoa, parse_int-itoa_ℤ, parse_int-IsDigit,
  parse_digits-scan, scan_last, scan_digit,
}
use redis_watcher.Go.Text.{Lacks, cut_at, cut_last_at, cut_last-Lacks, trim_left}
use redis_watcher.Monitor.Parser.{
  is_blank, is_boundary, find_close, split_host_port, parse_body, parse_bracket, parse_timestamp,
  parse_halves, parse_fraction, split_timestamp, pad_nanos,
}
use redis_watcher.Monitor.Parser.Render.{Peer, inet, inet6, bare, print_peer, source_of, six_digits}

scan-six_digits : (n : ℕ) → n < 1000000 → scan (six_digits n) 0 ≡ some n
unfolding six_digits
scan-six_digits n h =
    let d = n / 10 / 10 / 10 / 10 / 10 in
    rw
      (
        scan_digit d _ (omega arith),
        scan_last (n / 10 / 10 / 10 / 10),
        scan_last (n / 10 / 10 / 10),
        scan_last (n / 10 / 10),
        scan_last (n / 10),
        scan_last n,
      )
      (unfold scan in refl)

pub six_digits-IsDigit : (n : ℕ) → All IsDigit (six_digits n)
unfolding six_digits
six_digits-IsDigit n = omega arith

six_digits-ne-nil : (n : ℕ) → six_digits n ≢ []
unfolding six_digits
six_digits-ne-nil n e = cc

parse_fraction-six_digits :
    (n : ℕ) → n < 1000000 → parse_fraction (six_digits n) ≡ ok (pos (n * 1000))
unfolding parse_fraction six_digits
parse_fraction-six_digits n h =
    let digits = parse_digits-scan (six_digits n) (six_digits-ne-nil n) ∙ scan-six_digits n h in
    rw
      (
        parse_int-IsDigit (six_digits n) n (six_digits-IsDigit n) digits (omega arith),
        parse_fraction,
      )
      (unfold pad_nanos in ground arith)

pub digits_lack : (d : ℕ) (s : Bytes) → (d < b'0') ⊎ (b'9' < d) → All IsDigit s → Lacks d s
digits_lack d [] h a = tt
digits_lack d (c ∷ s) h a = (ground arith, digits_lack d s h a.1)

pub itoa_ℤ-Lacks : (d : ℕ) (z : ℤ) → (d < b'0') ⊎ (b'9' < d) → d ≢ b'-' → Lacks d (itoa_ℤ z)
unfolding itoa_ℤ
itoa_ℤ-Lacks d (pos n) h e = digits_lack d _ h (itoa-IsDigit n)
itoa_ℤ-Lacks d (negsuc n) h e = (λ k. e (sym k), digits_lack d _ h (itoa-IsDigit (suc n)))

-- A timestamp of whole seconds and microseconds is read exactly.
pub parse_timestamp-render :
    (sec usec : ℕ)
    → sec ≤ max_int
    → usec < 1000000
    → parse_timestamp (itoa sec ++ b'.' ∷ six_digits usec)
      ≡ ok (record { sec = pos sec; nsec = usec * 1000 })
unfolding parse_timestamp
parse_timestamp-render sec usec h k =
    let s = itoa sec ++ b'.' ∷ six_digits usec in
    let split : split_timestamp s ≡ (itoa sec, six_digits usec) =
      unfold split_timestamp in
      rw (
        cut_at b'.' (itoa sec) (six_digits usec)
            (digits_lack b'.' _ (inl (omega arith)) (itoa-IsDigit sec)),
        split_timestamp,
      ) in
    ap (parse_halves s) split
    ∙ rw (parse_int-itoa sec h, parse_halves, parse_fraction-six_digits usec k)

-- Every `]` in the text stands before a byte that is neither a blank nor a quote.
abbrev pub Inner : Bytes → Type 0
Inner [] = Unit
Inner (c ∷ []) = c ≢ b']'
Inner (c ∷ d ∷ s) = (c ≡ b']' → (is_blank d ≡ false) × (d ≢ b'"')) × Inner (d ∷ s)

Inner-append : (s t : Bytes) → Lacks b']' s → Inner t → Inner (s ++ t)
Inner-append [] t h k = k
Inner-append (c ∷ []) [] h k = h.0
Inner-append (c ∷ []) (d ∷ t) h k = (λ e. absurd (h.0 e), k)
Inner-append (c ∷ d ∷ s) t h k = (λ e. absurd (h.0 e), Inner-append (d ∷ s) t h.1 k)

Lacks-Inner : (s : Bytes) → Lacks b']' s → Inner s
Lacks-Inner [] h = tt
Lacks-Inner (c ∷ []) h = h.0
Lacks-Inner (c ∷ d ∷ s) h = (λ e. absurd (h.0 e), Lacks-Inner (d ∷ s) h.1)

Inner-cons : (c : ℕ) (s : Bytes) → c ≢ b']' → Inner s → Inner (c ∷ s)
Inner-cons c [] h k = h
Inner-cons c (d ∷ s) h k = (λ e. absurd (h e), k)

is_boundary_inner :
    (d : ℕ) (s : Bytes) → is_blank d ≡ false → d ≢ b'"' → is_boundary (d ∷ s) ≡ false
unfolding is_boundary trim_left
is_boundary_inner d s h k = ground arith

find_close_at :
    (a b : Bytes) → Inner a → is_boundary b ≡ true → find_close (a ++ b']' ∷ b) ≡ some (a, b)
unfolding find_close
find_close_at [] b h k = ground arith
find_close_at (c ∷ []) b h k = ground arith
find_close_at (c ∷ d ∷ a) b h k =
    ground (arith, find_close_at (d ∷ a) b h.1 k, h.0, is_boundary_inner d (a ++ b']' ∷ b))

abbrev pub NoOpen : Bytes → Type 0
NoOpen [] = Unit
NoOpen (c ∷ _) = c ≢ b'['

-- The addresses that a line can carry: no `]` in a part; nothing that looks like the start of an
-- IPv6 address in the other two forms; no colon in a port or a bare name.
abbrev pub IsPeer : Peer → Type 0
IsPeer (inet ip port) = Lacks b']' ip × NoOpen ip × Lacks b']' port × Lacks b':' port
IsPeer (inet6 ip port) = Lacks b']' ip × Lacks b']' port
IsPeer (bare name) = Lacks b']' name × NoOpen name × Lacks b':' name

abbrev pair_of : Source → Bytes × Bytes
pair_of s = (s.ip, s.port)

split_host_port-print_peer :
    (p : Peer) → IsPeer p → split_host_port (print_peer p) ≡ pair_of (source_of p)
unfolding split_host_port print_peer source_of
split_host_port-print_peer (inet [] port) h = ground (arith, cut_last_at b':' [] port h.3)
split_host_port-print_peer (inet (c ∷ ip) port) h =
    ground (arith, cut_last_at b':' (c ∷ ip) port h.3)
split_host_port-print_peer (inet6 ip port) h = ground (arith, cut_at b']' ip (b':' ∷ port) h.0)
split_host_port-print_peer (bare []) h = refl
split_host_port-print_peer (bare (c ∷ name)) h = ground (arith, cut_last-Lacks b':' (c ∷ name) h.2)

print_peer-Inner : (p : Peer) → IsPeer p → Inner (print_peer p)
unfolding print_peer
print_peer-Inner (inet ip port) h =
    Inner-append ip _ h.0 (Lacks-Inner (b':' ∷ port) (λ e. omega arith, h.2))
print_peer-Inner (inet6 ip port) h =
    Inner-append (b'[' ∷ ip) _ (λ e. omega arith, h.0)
      (λ e. (refl, λ k. omega arith), Lacks-Inner (b':' ∷ port) (λ e. omega arith, h.1))
print_peer-Inner (bare name) h = Lacks-Inner name h.0

parse_body-print :
    (db : ℤ) (p : Peer)
    → IsInt db
    → IsPeer p
    → parse_body (itoa_ℤ db ++ b' ' ∷ print_peer p) ≡ ok (db, source_of p)
unfolding parse_body
parse_body-print db p h k = rw (
  cut_at b' ' (itoa_ℤ db) (print_peer p)
      (itoa_ℤ-Lacks b' ' db (inl (omega arith)) (λ e. omega arith)),
  parse_body,
  parse_int-itoa_ℤ db h,
  split_host_port-print_peer p k,
)

-- The bracket is read to its end, also where the address holds brackets of its own, and the text
-- behind it starts at the first quote.
pub parse_bracket-print :
    (db : ℤ) (p : Peer) (rest : Bytes)
    → IsInt db
    → IsPeer p
    → parse_bracket (b'[' ∷ (itoa_ℤ db ++ (b' ' ∷ (print_peer p ++ (b']' ∷ b' ' ∷ b'"' ∷ rest)))))
      ≡ ok (db, source_of p, b'"' ∷ rest)
unfolding parse_bracket
parse_bracket-print db p rest h k =
    let body = itoa_ℤ db ++ b' ' ∷ print_peer p in
    let inner : Inner body =
      Inner-append (itoa_ℤ db) (b' ' ∷ print_peer p)
        (itoa_ℤ-Lacks b']' db (inr (omega arith)) (λ e. omega arith))
        (Inner-cons b' ' (print_peer p) (λ e. omega arith) (print_peer-Inner p k)) in
    let shape : itoa_ℤ db ++ (b' ' ∷ (print_peer p ++ (b']' ∷ b' ' ∷ b'"' ∷ rest)))
        ≡ body ++ b']' ∷ b' ' ∷ b'"' ∷ rest =
      sym (append_assoc (itoa_ℤ db) (b' ' ∷ print_peer p) _) in
    rw
      (
        shape,
        find_close_at body (b' ' ∷ b'"' ∷ rest) inner (unfold is_boundary trim_left in refl),
        parse_body-print db p h k,
      )
      (unfold trim_left in refl)
