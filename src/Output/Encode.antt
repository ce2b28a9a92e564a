-- ===== src/Output/Encode.antt =====
-- `encode` and `quoteText` of internal/output/output.go. `json.Marshal` and `time.Format` are
-- given.
use redis_watcher.Base.{◌||◌, List, [], ◌∷◌, ◌++◌, ◌≡◌, refl, arith, ap, ◌∙◌}
use redis_watcher.Base.Bytes.{Bytes, codes, is_empty, eq_bytes}
use redis_watcher.Base.Results.{Result, ok, err}
use redis_watcher.Base.Tests.{◌==◌, if◌then◌else◌}
use redis_watcher.Event.{Time, Event, args_line, quote_arg, escape_quoted, needs_quotes}
use redis_watcher.Event.Quoting.{read_words, gap, read_words-args_line}
use redis_watcher.Go.Int.{itoa_ℤ}
use redis_watcher.Go.Text.{Unicode, to_lower, contains_any}

pub data EncodeError : Type 0 where
  marshal_failed : Bytes → EncodeError
  unknown_format : Bytes → EncodeError

-- The loop of `quoteText`.
unfoldable pub escape_text : Bytes → Bytes
escape_text [] = []
escape_text (c ∷ s) = (if c == b'"' || c == b'\\' then b'\\' ∷ [] else []) ++ c ∷ escape_text s

unfoldable pub quote_text : Bytes → Bytes
unfolding escape_text
quote_text s =
    if contains_any (λ c. c == b' ' || c == b'\t' || c == b'\n' || c == b'\r' || c == b'"') s
    then (b'"' ∷ escape_text s) ++ b'"' ∷ []
    else s

unfoldable pub text_args : List Bytes → Bytes
unfolding quote_text
text_args [] = []
text_args (a ∷ rest) = b' ' ∷ (quote_text a ++ text_args rest)

unfoldable pub text_head : (Time → Bytes) → Event → Bytes
text_head format_time ev =
    format_time ev.timestamp
    ++ (codes " db="
        ++ (itoa_ℤ ev.db
            ++ (codes " src="
                ++ (ev.source.ip
                    ++ (b':'
                        ∷ (ev.source.port
                            ++ (codes " cmd="
                                ++ (ev.command
                                    ++ (if is_empty ev.subcommand
                                        then []
                                        else codes " sub=" ++ ev.subcommand)))))))))

-- What `json.Marshal` gives, with the line end.
abbrev pub json_line : Result Bytes Bytes → Result EncodeError Bytes
json_line (err e) = err (marshal_failed e)
json_line (ok buf) = ok (buf ++ b'\n' ∷ [])

unfoldable pub encode :
    Unicode
    → (Event → Result Bytes Bytes)
    → (Time → Bytes)
    → Event
    → Bytes
    → Result EncodeError Bytes
unfolding text_head text_args
encode u marshal format_time ev format =
    let f = to_lower u format in
    if is_empty f || eq_bytes f (codes "json")
    then json_line (marshal ev)
    else if eq_bytes f (codes "text")
    then ok (text_head format_time ev ++ (text_args ev.args ++ b'\n' ∷ []))
    else err (unknown_format format)

escape_text-escape_quoted : (s : Bytes) → escape_text s ≡ escape_quoted s
unfolding escape_text escape_quoted
escape_text-escape_quoted [] = refl
escape_text-escape_quoted (c ∷ s) = ground (arith, escape_text-escape_quoted s)

special-needs_quotes :
    (s : Bytes)
    → contains_any (λ c. c == b' ' || c == b'\t' || c == b'\n' || c == b'\r' || c == b'"') s
      ≡ contains_any needs_quotes s
special-needs_quotes [] = refl
special-needs_quotes (c ∷ s) = ground (arith, special-needs_quotes s)

-- The output's quoting and the one of the command line that the alert rules read are the same
-- function, though each has its own loop and its own list of characters.
pub quote_text-quote_arg : (s : Bytes) → quote_text s ≡ quote_arg s
unfolding quote_text quote_arg
quote_text-quote_arg s = rw (special-needs_quotes s, escape_text-escape_quoted s)

text_args-args_line : (args : List Bytes) → text_args args ≡ args_line args
unfolding text_args args_line
text_args-args_line [] = refl
text_args-args_line (a ∷ rest) = rw (quote_text-quote_arg a, text_args-args_line rest)

-- A line of the text format ends in the event's arguments, all of them, in a form from which they
-- can be read back byte for byte; no format but the text one is in question.
pub encode-text_args :
    (u : Unicode) (marshal : Event → Result Bytes Bytes) (format_time : Time → Bytes) (ev : Event)
    (format : Bytes)
    → to_lower u format ≡ codes "text"
    → (line : Bytes) × (encode u marshal format_time ev format
        ≡ ok (text_head format_time ev ++ (line ++ b'\n' ∷ [])))
      × (read_words gap line ≡ ev.args)
unfolding encode
encode-text_args u marshal format_time ev format h = (
  text_args ev.args,
  rw h (unfold eq_bytes in refl),
  ap (read_words gap) (text_args-args_line ev.args) ∙ read_words-args_line ev.args,
)
