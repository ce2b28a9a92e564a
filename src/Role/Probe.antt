-- ===== src/Role/Probe.antt =====
-- What a series of probes tells the metrics.
use redis_watcher.Base.{
  true, not, ◌&&◌, List, [], ◌∷◌, ◌++◌, Option, none, some, ◌≡◌, inl, inr, refl, arith, ◌∙◌,
}
use redis_watcher.Base.Bytes.{eq_bytes, eq_bytes_iff, eq_bytes_refl}
use redis_watcher.Base.Results.{Result, ok, err}
use redis_watcher.Base.Tests.{if◌then◌else◌, Bool-cases}
use redis_watcher.Role.{
  Checker, Role, RoleError, Effect, probe_once, notify, has_sink, record_role_probe, capture,
  set_redis_role, record_role_transition,
}

-- Probe after probe.
unfoldable pub probes : Checker → List (Result RoleError Role) → Checker × List Effect
probes c [] = (c, [])
probes c (r ∷ rs) =
    let (c', es) = probe_once c r in let (c'', es') = probes c' rs in (c'', es ++ es')

-- The role that the recorded transitions lead to: `none` where one does not start at the role
-- before it, or leads nowhere else.
unfoldable pub chain : Role → List Effect → Option Role
chain role [] = some role
chain role (record_role_transition from to ∷ es) =
    if eq_bytes from role && not (eq_bytes from to) then chain to es else none
chain role (record_role_probe _ ∷ es) = chain role es
chain role (capture _ ∷ es) = chain role es
chain role (set_redis_role _ ∷ es) = chain role es

chain-append :
    (es es' : List Effect) (role role' : Role)
    → chain role es ≡ some role'
    → chain role (es ++ es') ≡ chain role' es'
unfolding chain
chain-append [] es' role role' h = ground arith
chain-append (record_role_transition from to ∷ es) es' role role' h =
    elim (Bool-cases (eq_bytes from role && not (eq_bytes from to))) [
      | inl good ↦ rw good (chain-append es es' to role' (rw good at h))
      | inr bad ↦ absurd (none_some (rw bad at h))
    ]
  where
    none_some : ◌≡◌ {A = Option Role} none (some role') → ⊥
    none_some e = cc
chain-append (record_role_probe _ ∷ es) es' role role' h = chain-append es es' role role' h
chain-append (capture _ ∷ es) es' role role' h = chain-append es es' role role' h
chain-append (set_redis_role _ ∷ es) es' role role' h = chain-append es es' role role' h

probe_once-chain :
    (c : Checker) (r : Result RoleError Role)
    → has_sink c.sink ≡ true
    → (chain c.current (probe_once c r).1 ≡ some (probe_once c r).0.current)
      × ((probe_once c r).0.sink ≡ c.sink)
unfolding probe_once chain notify
probe_once-chain c (err e) s = (ground arith, refl)
probe_once-chain c (ok role) s =
    (ground (arith, eq_bytes_refl c.current, eq_bytes_iff c.current role), ground arith)

-- With a metrics sink, the role transitions that it is told of make one chain, from the role at the
-- start to the role that the checker ends with: none is left out, none is told twice, and a probe
-- that fails or finds the same role adds none.
pub probes-chain :
    (rs : List (Result RoleError Role)) (c : Checker)
    → has_sink c.sink ≡ true
    → chain c.current (probes c rs).1 ≡ some (probes c rs).0.current
unfolding probes chain
probes-chain [] c s = refl
probes-chain (r ∷ rs) c s =
    let (step, same) = probe_once-chain c r s in
    chain-append (probe_once c r).1 (probes (probe_once c r).0 rs).1 c.current
      (probe_once c r).0.current step
    ∙ probes-chain rs (probe_once c r).0 (rw same s)
