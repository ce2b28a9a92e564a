-- ===== src/Role.antt =====
-- internal/role/role.go: the checker that follows whether Redis is the primary.
pub mod Info
pub mod Probe
pub mod Wait
mod Examples
use redis_watcher.Base.{
  ℕ, suc, ◌+◌, Bool, true, false, not, ◌&&◌, ◌||◌, List, [], ◌∷◌, ◌++◌, map, Option, none, some,
}
use redis_watcher.Base.Bytes.{Bytes, codes, eq_bytes, is_empty}
use redis_watcher.Base.Results.{Result, ok, err, ◌>>=◌, wrap}
use redis_watcher.Base.Tests.{◌==◌, if◌then◌else◌}
use redis_watcher.Go.Int.{ℤ, pos, default_time}
use redis_watcher.Go.Text.{Unicode, trim_space, strip_prefix, split_crlf}
use redis_watcher.Resp.{Conn, write_command, read_simple_string, read_bulk_string, auth_args}

abbrev pub Role : Type 0
Role = Bytes

abbrev pub role_master : Role
role_master = codes "master"

abbrev pub role_replica : Role
role_replica = codes "replica"

abbrev pub role_unknown : Role
role_unknown = codes "unknown"

pub data RoleError : Type 0 where
  dial_failed : Bytes → RoleError
  auth_failed : redis_watcher.Resp.Error → RoleError
  info_failed : redis_watcher.Resp.Error → RoleError
  info_read_failed : redis_watcher.Resp.Error → RoleError
  role_not_found : RoleError

pub record Options : Type 0 where
  pub username : Bytes
  pub password : Bytes
  pub dial_timeout : ℤ
  pub read_timeout : ℤ
  pub interval : ℤ
  pub allow_replica : Bool

-- A registered channel: its identity, and whether the signal is in its buffer of one.
pub record Waiter : Type 0 where
  pub id : ℕ
  pub signalled : Bool

-- The kinds of metrics sink: nil, without and with `RecordRoleProbe`.
pub data Sink : Type 0 where
  no_sink role_sink probe_sink : Sink

pub record Checker : Type 0 where
  pub opts : Options
  pub sink : Sink
  pub is_master : Bool
  pub current : Role
  pub waiters : List Waiter
  pub next_id : ℕ
  pub probe_err : Option RoleError

unfoldable pub new : Options → Sink → Checker
new o sink = record {
  opts = record o {
    interval = default_time o.interval (pos 5_000_000_000);
    dial_timeout = default_time o.dial_timeout (pos 3_000_000_000);
    read_timeout = default_time o.read_timeout (pos 3_000_000_000);
  };
  sink = sink;
  is_master = false;
  current = role_unknown;
  waiters = [];
  next_id = 0;
  probe_err = none;
}

-- `IsMaster`, which `IsActive` calls.
unfoldable pub is_active : Checker → Bool
is_active c = if c.opts.allow_replica then true else c.is_master

unfoldable pub subscribe : Checker → ℕ × Checker
subscribe c = (
  c.next_id,
  record c {
    waiters = c.waiters ++ record { id = c.next_id; signalled = false } ∷ [];
    next_id = suc c.next_id;
  },
)

unfoldable pub remove_waiter : ℕ → List Waiter → List Waiter
remove_waiter id [] = []
remove_waiter id (w ∷ ws) = if w.id == id then ws else w ∷ remove_waiter id ws

unfoldable pub cancel : ℕ → Checker → Checker
cancel id c = record c { waiters = remove_waiter id c.waiters }

-- A send to a channel whose buffer is full does nothing.
unfoldable pub notify_all : List Waiter → List Waiter
notify_all [] = []
notify_all (w ∷ ws) = record w { signalled = true } ∷ notify_all ws

unfoldable pub notify : Checker → Checker
notify c = record c { waiters = notify_all c.waiters }

-- The switch on the value of the `role:` line.
unfoldable pub role_of : Bytes → Role
role_of v =
    if eq_bytes v role_master
    then role_master
    else if eq_bytes v (codes "slave") || eq_bytes v role_replica
    then role_replica
    else v

unfoldable pub find_role : Unicode → List Bytes → Result RoleError Role
find_role u [] = err role_not_found
find_role u (line ∷ lines) = elim (strip_prefix (codes "role:") line) [
  | none ↦ find_role u lines
  | some v ↦ ok (role_of (trim_space u v))
]

unfoldable pub parse_role_from_info : Unicode → Bytes → Result RoleError Role
unfolding find_role
parse_role_from_info u body = find_role u (split_crlf body)

-- The AUTH exchange, where a password is set.
unfoldable pub authenticate : Options → Conn → Result RoleError Conn
authenticate o conn =
    if is_empty o.password
    then ok conn
    else wrap auth_failed
        (write_command (auth_args o.username o.password) conn >>= read_simple_string)

-- `queryRole`, with what the dial gives: a connection or its error.
unfoldable pub query_role : Unicode → Options → Result Bytes Conn → Result RoleError Role
unfolding authenticate
query_role u o dialled = wrap dial_failed dialled >>= λ conn. authenticate o conn >>= λ authed.
    wrap info_failed (write_command (codes "INFO" ∷ codes "replication" ∷ []) authed) >>= λ asked.
    wrap info_read_failed (read_bulk_string asked) >>= λ reply. parse_role_from_info u reply.0

pub data Effect : Type 0 where
  record_role_probe : Bool → Effect
  capture : RoleError → Effect
  set_redis_role : Role → Effect
  record_role_transition : Role → Role → Effect

abbrev pub has_sink : Sink → Bool
has_sink no_sink = false
has_sink _ = true

abbrev pub is_probe_sink : Sink → Bool
is_probe_sink probe_sink = true
is_probe_sink _ = false

abbrev pub is_ok : Result RoleError Role → Bool
is_ok (ok _) = true
is_ok (err _) = false

-- The stores of `probeOnce`: up to the call of `notify`, which comes where the role has changed.
unfoldable pub store_probe : Checker → Result RoleError Role → Checker × Bool
store_probe c (err e) = (record c { probe_err = some e }, false)
store_probe c (ok role) = (
  record c { probe_err = none; is_master = eq_bytes role role_master; current = role },
  not (eq_bytes c.current role),
)

unfoldable pub probe_effects : Checker → Result RoleError Role → List Effect
probe_effects c r =
    (if is_probe_sink c.sink then record_role_probe (is_ok r) ∷ [] else []) ++ elim r [
      | err e ↦ capture e ∷ []
      | ok role ↦
          (if has_sink c.sink then set_redis_role role ∷ [] else [])
          ++ (if not (eq_bytes c.current role) && has_sink c.sink
              then record_role_transition c.current role ∷ []
              else [])
    ]

unfoldable pub probe_once : Checker → Result RoleError Role → Checker × List Effect
unfolding store_probe probe_effects
probe_once c r =
    let (c', changed) = store_probe c r in (if changed then notify c' else c', probe_effects c r)
