-- ===== src/Event.antt =====
-- internal/event/event.go: the audit event and its two texts.
pub mod Quoting
mod Examples
use redis_watcher.Base.{ℕ, Bool, true, false, ◌&&◌, ◌||◌, List, [], ◌∷◌, ◌++◌}
use redis_watcher.Base.Bytes.{Bytes, codes, is_empty}
use redis_watcher.Base.Tests.{◌==◌, if◌then◌else◌}
use redis_watcher.Go.Int.{ℤ}
use redis_watcher.Go.Text.{contains_any}

-- A `time.Time` in UTC: seconds since 1970 and nanoseconds below 10^9.
pub record Time : Type 0 where
  pub sec : ℤ
  pub nsec : ℕ

pub record Source : Type 0 where
  pub ip : Bytes
  pub port : Bytes

pub record Event : Type 0 where
  pub timestamp : Time
  pub db : ℤ
  pub source : Source
  pub command : Bytes
  pub subcommand : Bytes
  pub args : List Bytes

unfoldable pub full_command : Event → Bytes
full_command e = if is_empty e.subcommand then e.command else e.command ++ b' ' ∷ e.subcommand

-- The characters " \t\r\n\"".
abbrev pub needs_quotes : ℕ → Bool
needs_quotes c = c == b' ' || c == b'\t' || c == b'\r' || c == b'\n' || c == b'"'

-- The loop that escapes a quoted argument.
unfoldable pub escape_quoted : Bytes → Bytes
escape_quoted [] = []
escape_quoted (c ∷ s) =
    if c == b'"' || c == b'\\' then b'\\' ∷ c ∷ escape_quoted s else c ∷ escape_quoted s

unfoldable pub quote_arg : Bytes → Bytes
unfolding escape_quoted
quote_arg a = if contains_any needs_quotes a then b'"' ∷ (escape_quoted a ++ b'"' ∷ []) else a

unfoldable pub args_line : List Bytes → Bytes
unfolding quote_arg
args_line [] = []
args_line (a ∷ rest) = b' ' ∷ (quote_arg a ++ args_line rest)

unfoldable pub command_line : Event → Bytes
unfolding args_line
command_line e = e.command ++ args_line e.args
