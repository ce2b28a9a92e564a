-- ===== src/Metrics/Server.antt =====
-- internal/metrics/server.go: the patterns that `NewServer` registers. The mux of net/http is the
-- parameter accepts: whether `Handle` takes a pattern beside those registered. It panics otherwise:
-- where the pattern is malformed, registered already, or in conflict with one that is.
use redis_watcher.Base.{Bool, List, [], ◌∷◌, Option, none, some}
use redis_watcher.Base.Bytes.{Bytes, codes}
use redis_watcher.Base.Tests.{if◌then◌else◌}

abbrev pub healthz : Bytes
healthz = codes "/healthz"

abbrev pub readyz : Bytes
readyz = codes "/readyz"

-- The patterns of the mux; `none` where a registration panics.
unfoldable pub new_server : (List Bytes → Bytes → Bool) → Bytes → Option (List Bytes)
new_server accepts path =
    if accepts [] path
    then (if accepts (path ∷ []) healthz
        then (if accepts (path ∷ healthz ∷ []) readyz
            then some (path ∷ healthz ∷ readyz ∷ [])
            else none)
        else none)
    else none
