-- ===== src/Monitor/Parser/Args.antt =====
-- The arguments: whatever bytes they hold, they are read back from their quoted print.
use redis_watcher.Base.{
  ℕ, ◌+◌, ◌/◌, ◌%◌, ◌<◌, true, false, List, [], ◌∷◌, ◌++◌, ◌≡◌, some, arith, append_assoc,
  append-nil, refl,
}
use redis_watcher.Base.Bytes.{Bytes}
use native.Mathlib.Nat.{add_assoc, add-zero}
use redis_watcher.Base.Lists.{All, length, length-append}
use redis_watcher.Base.Results.{ok}
use redis_watcher.Go.Int.{parse_hex2}
use redis_watcher.Monitor.Parser.{Scan, args_loop, parse_quoted_args}
use redis_watcher.Monitor.Parser.Render.{hex_of, repr_byte, repr_bytes, repr_args, IsByte}

parse_hex2-hex_of : (c : ℕ) → c < 256 → parse_hex2 (hex_of (c / 16)) (hex_of (c % 16)) ≡ some c
unfolding parse_hex2 hex_of
parse_hex2-hex_of c h = ground arith

abbrev inside : Bytes → List Bytes → Scan
inside sb args = record { skip = 0; in_quote = true; sb = sb; args = args }

abbrev outside : List Bytes → Scan
outside args = record { skip = 0; in_quote = false; sb = []; args = args }

args_loop-repr_byte :
    (c i : ℕ) (sb : Bytes) (args : List Bytes) (rest : Bytes)
    → IsByte c
    → args_loop i (inside sb args) (repr_byte c ++ rest)
      ≡ args_loop (i + length (repr_byte c)) (inside (sb ++ c ∷ []) args) rest
unfolding args_loop repr_byte
args_loop-repr_byte c i sb args [] h = ground (arith, parse_hex2-hex_of c h)
args_loop-repr_byte c i sb args (x ∷ rest) h = ground (arith, parse_hex2-hex_of c h)

args_loop-repr_bytes :
    (s : Bytes) (i : ℕ) (sb : Bytes) (args : List Bytes) (rest : Bytes)
    → All IsByte s
    → args_loop i (inside sb args) (repr_bytes s ++ rest)
      ≡ args_loop (i + length (repr_bytes s)) (inside (sb ++ s) args) rest
unfolding repr_bytes
args_loop-repr_bytes [] i sb args rest h = rw (append-nil, add-zero)
args_loop-repr_bytes (c ∷ s) i sb args rest h = rw (
  append_assoc (repr_byte c) (repr_bytes s) rest,
  args_loop-repr_byte c i sb args (repr_bytes s ++ rest) h.0,
  args_loop-repr_bytes s (i + length (repr_byte c)) (sb ++ c ∷ []) args rest h.1,
  append_assoc sb (c ∷ []) s,
  length-append (repr_byte c) (repr_bytes s),
  add_assoc,
)

-- An opening quote behind a blank, and a closing quote.
open_arg :
    (i : ℕ) (args : List Bytes) (rest : Bytes)
    → args_loop i (outside args) (b' ' ∷ b'"' ∷ rest) ≡ args_loop (i + 1 + 1) (inside [] args) rest
unfolding args_loop
open_arg i args rest = refl

close_arg :
    (i : ℕ) (sb : Bytes) (args : List Bytes) (rest : Bytes)
    → args_loop i (inside sb args) (b'"' ∷ rest)
      ≡ args_loop (i + 1) (outside (args ++ sb ∷ [])) rest
unfolding args_loop
close_arg i sb args [] = refl
close_arg i sb args (x ∷ rest) = refl

args_loop-repr_args :
    (args : List Bytes) (i : ℕ) (done : List Bytes)
    → All (All IsByte) args
    → args_loop i (outside done) (repr_args args) ≡ ok (done ++ args)
unfolding repr_args
args_loop-repr_args [] i done h = unfold args_loop in rw append-nil
args_loop-repr_args (a ∷ args) i done h = rw (
  open_arg i done (repr_bytes a ++ (b'"' ∷ repr_args args)),
  args_loop-repr_bytes a (i + 1 + 1) [] done (b'"' ∷ repr_args args) h.0,
  close_arg (i + 1 + 1 + length (repr_bytes a)) a done (repr_args args),
  args_loop-repr_args args (i + 1 + 1 + length (repr_bytes a) + 1) (done ++ a ∷ []) h.1,
  append_assoc done (a ∷ []) args,
)

-- The arguments of a MONITOR line are read back from the quoted form that Redis prints, whatever
-- bytes they hold: quotes, backslashes, control bytes and bytes above 127 included.
pub parse_quoted_args-repr_args :
    (args : List Bytes) → All (All IsByte) args → parse_quoted_args (repr_args args) ≡ ok args
unfolding parse_quoted_args
parse_quoted_args-repr_args args h = args_loop-repr_args args 0 [] h

open_first :
    (rest : Bytes) → args_loop 0 (outside []) (b'"' ∷ rest) ≡ args_loop 1 (inside [] []) rest
unfolding args_loop
open_first rest = refl

-- Without the blank in front, as the bracket leaves them.
pub parse_quoted_args-tail :
    (a : Bytes) (args : List Bytes)
    → All (All IsByte) (a ∷ args)
    → parse_quoted_args (b'"' ∷ (repr_bytes a ++ (b'"' ∷ repr_args args))) ≡ ok (a ∷ args)
unfolding parse_quoted_args
parse_quoted_args-tail a args h = rw (
  open_first (repr_bytes a ++ (b'"' ∷ repr_args args)),
  args_loop-repr_bytes a 1 [] [] (b'"' ∷ repr_args args) h.0,
  close_arg (1 + length (repr_bytes a)) a [] (repr_args args),
  args_loop-repr_args args (1 + length (repr_bytes a) + 1) (a ∷ []) h.1,
)
