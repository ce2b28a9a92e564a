-- ===== src/Sentry/Examples.antt =====
-- A run of the reports.
use redis_watcher.Base.{List, [], ◌∷◌, none, some, ◌≡◌, refl}
use redis_watcher.Base.Bytes.{Bytes, codes, eq_bytes}
use redis_watcher.Sentry.{Value, text, last_pair}

-- The second value of a key wins.
abbrev pairs : List (Bytes × Value)
pairs = (codes "stage", text (codes "a")) ∷ (codes "stage", text (codes "b")) ∷ []

stage-last : last_pair (codes "stage") none pairs ≡ some (text (codes "b"))
unfolding eq_bytes
stage-last = refl
