-- ===== src/Role/Examples.antt =====
-- Witnesses and runs of the role checker.
use redis_watcher.Base.{true, false, List, [], ◌∷◌, some, ◌≡◌, refl, arith}
use redis_watcher.Base.Bytes.{codes, eq_bytes}
use redis_watcher.Base.Results.{Result, ok, err}
use redis_watcher.Go.Int.{pos}
use redis_watcher.Go.Text.{Unicode, join_crlf, trim_space, strip_prefix}
use redis_watcher.Role.{
  Checker, Options, Role, RoleError, new, probe_sink, subscribe, notify, notify_all, store_probe,
  is_active, role_master, role_replica, role_of, role_not_found, parse_role_from_info,
}
use redis_watcher.Role.Info.{parse_role_from_info-join_crlf}
use redis_watcher.Role.Probe.{chain, probes, probes-chain}
use redis_watcher.Role.Wait.{
  Reach, started, stepped, check_inactive, registers, recheck_inactive, stores, notifies, signalled,
  state, blocked,
}
use redis_watcher.Role.Wait.Wakeup.{blocked-signalled}

abbrev tables : Unicode
tables = record { map_upper = λ s. s; map_lower = λ s. s; trim_func = λ s. s }

parse_role_from_info-join_crlf_example :
    parse_role_from_info tables
      (join_crlf (codes "# Replication" ∷ codes "role:slave" ∷ codes "master_host:a" ∷ []))
    ≡ ok (role_of (trim_space tables (codes "slave")))
unfolding strip_prefix
parse_role_from_info-join_crlf_example =
    parse_role_from_info-join_crlf tables (codes "# Replication" ∷ []) (codes "master_host:a" ∷ [])
      (codes "slave") (refl, tt) (omega arith) (omega arith) (omega arith)

abbrev options : Options
options = record {
  username = [];
  password = [];
  dial_timeout = pos 0;
  read_timeout = pos 0;
  interval = pos 0;
  allow_replica = false;
}

abbrev results : List (Result RoleError Role)
results = ok role_replica ∷ err role_not_found ∷ ok role_replica ∷ ok role_master ∷ []

probes-chain_example :
    chain (new options probe_sink).current (probes (new options probe_sink) results).1
    ≡ some (probes (new options probe_sink) results).0.current
unfolding new
probes-chain_example = probes-chain results (new options probe_sink) refl

-- A waiter blocks, and a probe then finds the primary.
abbrev promoted : Checker
promoted = record (new options probe_sink) {
  is_master = true;
  current = role_master;
  next_id = 1;
  waiters = record { id = 0; signalled = true } ∷ [];
}

promoted-Reach : Reach options probe_sink (state promoted false (blocked 0))
unfolding new is_active subscribe store_probe notify notify_all eq_bytes
promoted-Reach =
    stepped
      (stepped
        (stepped (stepped (stepped started (check_inactive refl)) registers)
          (recheck_inactive refl))
        (stores (ok role_master)))
      notifies

blocked-signalled_example : signalled 0 promoted.waiters ≡ some true
blocked-signalled_example =
    blocked-signalled options probe_sink promoted 0 promoted-Reach (unfold is_active new in refl)
