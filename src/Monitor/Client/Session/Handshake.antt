-- ===== src/Monitor/Client/Session/Handshake.antt =====
-- A connection to a server that accepts the watcher: every command that it prints is queued.
use redis_watcher.Base.{
  ℕ, ◌/◌, ◌%◌, ◌<◌, Bool, true, false, not, List, [], ◌∷◌, ◌++◌, map, append_assoc, ◌≡◌, inl, inr,
  refl, arith, ap, ◌∙◌, sym,
}
use redis_watcher.Base.Bytes.{Bytes}
use redis_watcher.Base.Lists.{all, All, All-append}
use redis_watcher.Base.Tests.{◌==◌, Bool-cases}
use redis_watcher.Go.Int.{itoa, itoa_ℤ}
use redis_watcher.Go.Int.Laws.{itoa-IsDigit}
use redis_watcher.Go.Text.{Lacks}
use redis_watcher.Monitor.Client.Session.{lines_onto}
use redis_watcher.Monitor.Client.Stream.{Command, IsCommand, line_of}
use redis_watcher.Monitor.Parser.Header.{digits_lack, itoa_ℤ-Lacks, six_digits-IsDigit}
use redis_watcher.Monitor.Parser.Render.{
  Line, render, stamp_of, tail_of, six_digits, print_peer, repr_byte, repr_bytes, repr_args, hex_of,
  IsByte,
}

abbrev plain : Bytes → Bool
plain = all (λ c. not (c == b'\n'))

plain-Lacks : (s : Bytes) → plain s ≡ true → Lacks b'\n' s
plain-Lacks [] h = tt
plain-Lacks (c ∷ s) h = (λ e. ground arith, plain-Lacks s (ground arith))

hex_of-plain : (d : ℕ) → d < 16 → (hex_of d == b'\n') ≡ false
unfolding hex_of
hex_of-plain d h = ground arith

repr_byte-plain : (c : ℕ) → IsByte c → plain (repr_byte c) ≡ true
unfolding repr_byte
repr_byte-plain c h =
    ground (arith, hex_of-plain (c / 16) (omega (arith, h)), hex_of-plain (c % 16) (omega arith))

repr_byte-Lacks : (c : ℕ) → IsByte c → Lacks b'\n' (repr_byte c)
repr_byte-Lacks c h = plain-Lacks (repr_byte c) (repr_byte-plain c h)

repr_bytes-Lacks : (s : Bytes) → All IsByte s → Lacks b'\n' (repr_bytes s)
unfolding repr_bytes
repr_bytes-Lacks [] h = tt
repr_bytes-Lacks (c ∷ s) h =
    All-append _ (repr_byte c) (repr_bytes s) (repr_byte-Lacks c h.0) (repr_bytes-Lacks s h.1)

repr_args-Lacks : (args : List Bytes) → All (All IsByte) args → Lacks b'\n' (repr_args args)
unfolding repr_args
repr_args-Lacks [] h = tt
repr_args-Lacks (a ∷ rest) h = (
  λ e. omega arith,
  (
    λ e. omega arith,
    All-append _ (repr_bytes a) (b'"' ∷ repr_args rest) (repr_bytes-Lacks a h.0)
        (λ e. omega arith, repr_args-Lacks rest h.1),
  ),
)

lines_onto-line :
    (acc line rest : Bytes)
    → Lacks b'\n' line
    → lines_onto acc (line ++ b'\n' ∷ rest) ≡ (acc ++ (line ++ b'\n' ∷ [])) ∷ lines_onto [] rest
unfolding lines_onto
lines_onto-line acc [] rest h = refl
lines_onto-line acc (c ∷ line) rest h = elim (Bool-cases (c == b'\n')) [
  | inl newline ↦ absurd (h.0 (ground arith))
  | inr other ↦ rw other (
      lines_onto-line (acc ++ c ∷ []) line rest h.1
      ∙ ap (λ x. x ∷ lines_onto [] rest) (append_assoc acc (c ∷ []) (line ++ b'\n' ∷ [])))
]

-- What the server sends for each command, without its last newline.
abbrev body_of : Line → Bytes
body_of l = b'+' ∷ ((stamp_of l ++ b' ' ∷ tail_of l) ++ b'\r' ∷ [])

render-body_of : (l : Line) → render l ≡ body_of l ++ b'\n' ∷ []
unfolding render
render-body_of l =
    ap (◌∷◌ b'+') (sym (append_assoc (stamp_of l ++ b' ' ∷ tail_of l) (b'\r' ∷ []) (b'\n' ∷ [])))

-- The peer's address has no newline.
abbrev pub OneLine : Command → Type 0
OneLine k = Lacks b'\n' (print_peer k.line.peer)

body_of-Lacks :
    (l : Line) → All (All IsByte) l.args → Lacks b'\n' (print_peer l.peer) → Lacks b'\n' (body_of l)
unfolding stamp_of tail_of
body_of-Lacks l args peer = (
  λ e. omega arith,
  All-append _ ((itoa l.sec ++ b'.' ∷ six_digits l.usec) ++ b' ' ∷ tail_of l) (b'\r' ∷ [])
      (All-append _ (itoa l.sec ++ b'.' ∷ six_digits l.usec) (b' ' ∷ tail_of l)
        (All-append _ (itoa l.sec) (b'.' ∷ six_digits l.usec)
          (digits_lack b'\n' _ (inl (omega arith)) (itoa-IsDigit l.sec))
          (λ e. omega arith, digits_lack b'\n' _ (inl (omega arith)) (six_digits-IsDigit l.usec)))
        (
          λ e. omega arith,
          (
            λ e. omega arith,
            All-append _ (itoa_ℤ l.db) _
                (itoa_ℤ-Lacks b'\n' l.db (inl (omega arith)) (λ e. omega arith))
                (
                  λ e. omega arith,
                  All-append _ (print_peer l.peer) (b']' ∷ repr_args l.args) peer
                      (λ e. omega arith, repr_args-Lacks l.args args),
                ),
          ),
        ))
      (λ e. omega arith, tt),
)

-- The stream that a server prints for commands.
abbrev pub stream_of : List Command → Bytes
stream_of [] = []
stream_of (k ∷ ks) = line_of k ++ stream_of ks

pub lines_onto-stream_of :
    (ks : List Command)
    → All IsCommand ks
    → All OneLine ks
    → lines_onto [] (stream_of ks) ≡ map line_of ks
lines_onto-stream_of [] h one = unfold lines_onto in refl
lines_onto-stream_of (k ∷ ks) (cmd, h) (here, one) =
    let body = body_of k.line in
    rw (render-body_of k.line, append_assoc body (b'\n' ∷ []) (stream_of ks))
      (lines_onto-line [] body (stream_of ks) (body_of-Lacks k.line cmd.1.args_fit here)
        ∙ ap (◌∷◌ (body ++ b'\n' ∷ [])) (lines_onto-stream_of ks h one))
