-- ===== src/Event/Examples.antt =====
-- A run of the command line.
use redis_watcher.Base.{List, [], ◌∷◌, ◌≡◌, refl}
use redis_watcher.Base.Bytes.{Bytes, codes}
use redis_watcher.Event.{args_line, quote_arg, escape_quoted}

abbrev args : List Bytes
args = codes "set" ∷ [] ∷ codes "a \"b\" \\" ∷ codes "c\\d" ∷ []

args_line_run : args_line args ≡ codes " set  \"a \\\"b\\\" \\\\\" c\\d"
unfolding args_line quote_arg escape_quoted
args_line_run = refl
