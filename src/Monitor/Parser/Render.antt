-- ===== src/Monitor/Parser/Render.antt =====
-- What Redis prints for MONITOR: the format that the parser is written for. Arguments are printed
-- as `sdscatrepr` does.
use redis_watcher.Base.{ℕ, ◌+◌, ◌-◌, ◌/◌, ◌%◌, ◌<◌, Bool, ◌&&◌, ◌||◌, List, [], ◌∷◌, ◌++◌}
use redis_watcher.Base.Bytes.{Bytes}
use redis_watcher.Base.Tests.{ltb, leb, ◌==◌, if◌then◌else◌}
use redis_watcher.Event.{Source}
use redis_watcher.Go.Int.{ℤ, itoa, itoa_ℤ}

-- A lower-case hexadecimal digit.
unfoldable pub hex_of : ℕ → ℕ
hex_of d = if ltb d 10 then b'0' + d else b'a' + (d - 10)

abbrev is_print : ℕ → Bool
is_print c = leb 32 c && leb c 126

unfoldable pub repr_byte : ℕ → Bytes
unfolding hex_of
repr_byte c =
    if c == b'\\' || c == b'"'
    then b'\\' ∷ c ∷ []
    else if c == b'\n'
    then b'\\' ∷ b'n' ∷ []
    else if c == b'\r'
    then b'\\' ∷ b'r' ∷ []
    else if c == b'\t'
    then b'\\' ∷ b't' ∷ []
    else if c == 7
    then b'\\' ∷ b'a' ∷ []
    else if c == 8
    then b'\\' ∷ b'b' ∷ []
    else if is_print c
    then c ∷ []
    else b'\\' ∷ b'x' ∷ hex_of (c / 16) ∷ hex_of (c % 16) ∷ []

unfoldable pub repr_bytes : Bytes → Bytes
repr_bytes [] = []
repr_bytes (c ∷ s) = repr_byte c ++ repr_bytes s

-- Each argument quoted, behind a blank.
unfoldable pub repr_args : List Bytes → Bytes
repr_args [] = []
repr_args (a ∷ rest) = b' ' ∷ b'"' ∷ (repr_bytes a ++ (b'"' ∷ repr_args rest))

abbrev pub IsByte : ℕ → Type 0
IsByte c = c < 256

-- A peer's address: `ip:port`, `[ip]:port` for IPv6, or a bare name such as `lua`.
pub data Peer : Type 0 where
  inet : Bytes → Bytes → Peer
  inet6 : Bytes → Bytes → Peer
  bare : Bytes → Peer

unfoldable pub print_peer : Peer → Bytes
print_peer (inet ip port) = ip ++ b':' ∷ port
print_peer (inet6 ip port) = b'[' ∷ (ip ++ b']' ∷ b':' ∷ port)
print_peer (bare name) = name

unfoldable pub source_of : Peer → Source
source_of (inet ip port) = record { ip = ip; port = port }
source_of (inet6 ip port) = record { ip = ip; port = port }
source_of (bare name) = record { ip = name; port = [] }

-- Six decimal digits, the microseconds of a timestamp.
unfoldable pub six_digits : ℕ → Bytes
six_digits n =
    (b'0' + n / 10 / 10 / 10 / 10 / 10 % 10)
    ∷ (b'0' + n / 10 / 10 / 10 / 10 % 10)
    ∷ (b'0' + n / 10 / 10 / 10 % 10)
    ∷ (b'0' + n / 10 / 10 % 10)
    ∷ (b'0' + n / 10 % 10)
    ∷ (b'0' + n % 10)
    ∷ []

pub record Line : Type 0 where
  pub sec : ℕ
  pub usec : ℕ
  pub db : ℤ
  pub peer : Peer
  pub args : List Bytes

-- `<sec>.<usec>`
unfoldable pub stamp_of : Line → Bytes
stamp_of l = itoa l.sec ++ b'.' ∷ six_digits l.usec

-- `[<db> <peer>]` and the quoted arguments.
unfoldable pub tail_of : Line → Bytes
tail_of l = b'[' ∷ (itoa_ℤ l.db ++ (b' ' ∷ (print_peer l.peer ++ (b']' ∷ repr_args l.args))))

unfoldable pub render : Line → Bytes
render l = b'+' ∷ ((stamp_of l ++ b' ' ∷ tail_of l) ++ b'\r' ∷ b'\n' ∷ [])
