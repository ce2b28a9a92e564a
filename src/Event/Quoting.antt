-- ===== src/Event/Quoting.antt =====
-- The command line that `CommandLine` of internal/event/event.go rebuilds, read back.
use redis_watcher.Base.{
  ℕ, false, ◌&&◌, List, [], ◌∷◌, ◌++◌, append-nil, append_assoc, ◌≡◌, inl, inr, refl, arith, ap,
  ◌∙◌,
}
use redis_watcher.Base.Bytes.{Bytes, is_empty}
use redis_watcher.Base.Tests.{◌==◌, if◌then◌else◌, Bool-cases}
use redis_watcher.Event.{needs_quotes, escape_quoted, quote_arg, args_line}
use redis_watcher.Go.Text.{contains_any}

-- A reader of command lines: in front of a blank, in a plain word, in a quoted one, and behind a
-- backslash in it.
pub data Place : Type 0 where
  gap : Place
  word : Bytes → Place
  quoted : Bytes → Place
  escaped : Bytes → Place

unfoldable pub read_words : Place → Bytes → List Bytes
read_words gap [] = []
read_words gap (_ ∷ s) = read_words (word []) s
read_words (word w) [] = w ∷ []
read_words (word w) (c ∷ s) =
    if c == b' '
    then w ∷ read_words (word []) s
    else if c == b'"' && is_empty w
    then read_words (quoted []) s
    else read_words (word (w ++ c ∷ [])) s
read_words (quoted w) [] = []
read_words (quoted w) (c ∷ s) =
    if c == b'"'
    then w ∷ read_words gap s
    else if c == b'\\'
    then read_words (escaped w) s
    else read_words (quoted (w ++ c ∷ [])) s
read_words (escaped w) [] = []
read_words (escaped w) (c ∷ s) = read_words (quoted (w ++ c ∷ [])) s

read_words-escape_quoted :
    (a w s : Bytes)
    → read_words (quoted w) (escape_quoted a ++ b'"' ∷ s) ≡ (w ++ a) ∷ read_words gap s
unfolding read_words escape_quoted
read_words-escape_quoted [] w s = rw (append-nil w)
read_words-escape_quoted (c ∷ a) w s =
    ground (arith, read_words-escape_quoted a (w ++ c ∷ []) s, append_assoc w (c ∷ []) a)

needs_quotes-head :
    (c : ℕ) (a : Bytes)
    → contains_any needs_quotes (c ∷ a) ≡ false
    → ((c == b' ') ≡ false) × ((c == b'"') ≡ false) × (contains_any needs_quotes a ≡ false)
needs_quotes-head c a h = (ground arith, ground arith, ground arith)

read_words-plain :
    (a w : Bytes) (rest : List Bytes)
    → contains_any needs_quotes a ≡ false
    → read_words (word w) (a ++ args_line rest) ≡ (w ++ a) ∷ read_words gap (args_line rest)
unfolding read_words args_line
read_words-plain [] w [] h = rw (append-nil w)
read_words-plain [] w (b ∷ rest) h = rw (append-nil w)
read_words-plain (c ∷ a) w rest h =
    let (blank, quote, plain) = needs_quotes-head c a h in
    rw (blank, quote) (read_words-plain a (w ++ c ∷ []) rest plain ∙ rw (append_assoc w (c ∷ []) a))

read_words-quote_arg :
    (a : Bytes) (rest : List Bytes)
    → read_words (word []) (quote_arg a ++ args_line rest) ≡ a ∷ read_words gap (args_line rest)
unfolding quote_arg
read_words-quote_arg a rest = elim (Bool-cases (contains_any needs_quotes a)) [
  | inl special ↦ rw special (
      rw (append_assoc (escape_quoted a) (b'"' ∷ []) (args_line rest))
        (unfold read_words in read_words-escape_quoted a [] (args_line rest)))
  | inr plain ↦ rw plain (read_words-plain a [] rest plain)
]

-- The arguments in a rebuilt command line can be read back, all of them and byte for byte: an
-- argument with blanks, quotes or backslashes cannot pass for another list of arguments.
pub read_words-args_line : (args : List Bytes) → read_words gap (args_line args) ≡ args
unfolding read_words args_line
read_words-args_line [] = refl
read_words-args_line (a ∷ rest) =
    read_words-quote_arg a rest ∙ ap (◌∷◌ a) (read_words-args_line rest)
