-- ===== src/Role/Wait.antt =====
-- `Wait` of internal/role/role.go among everything else that touches the checker: a waiter, the
-- probes and other subscribers, one step at a time.
pub mod Wakeup
use redis_watcher.Base.{
  ℕ, suc, ◌+◌, ◌<◌, ◌≤◌, Bool, true, false, not, ◌&&◌, List, [], ◌∷◌, ◌++◌, Option, none, some, ◌≡◌,
  ◌≢◌, ◌↔◌, ◌⊎◌, inl, inr, refl, arith, ap, ◌∙◌, sym,
}
use redis_watcher.Base.Bytes.{Bytes, codes, eq_bytes, eq_bytes_iff, eq_bytes_refl}
use redis_watcher.Base.Results.{Result, ok, err}
use redis_watcher.Base.Tests.{◌==◌, if◌then◌else◌, Bool-cases, Option-cases}
use redis_watcher.Role.{
  Checker, Options, Sink, Role, RoleError, Waiter, new, is_active, subscribe, cancel, notify,
  notify_all, remove_waiter, store_probe, role_master,
}

-- Where the waiter stands: about to check, about to subscribe, registered and about to check again,
-- blocked on its channel, or back.
pub data Place : Type 0 where
  checking : Place
  unregistered : Place
  registered : ℕ → Place
  blocked : ℕ → Place
  returned : Place
  gave_up : Place

-- The checker, whether a probe has stored a new role and is about to notify, and the waiter.
pub data State : Type 0 where
  state : Checker → Bool → Place → State

unfoldable pub signalled : ℕ → List Waiter → Option Bool
signalled id [] = none
signalled id (w ∷ ws) = if w.id == id then some w.signalled else signalled id ws

abbrev pub IsForeign : ℕ → Place → Type 0
IsForeign j (registered id) = j ≢ id
IsForeign j (blocked id) = j ≢ id
IsForeign j _ = Unit {0}

pub data Step : State → State → Type 0 where
  check_active :
      {c : Checker} {p : Bool} → is_active c ≡ true → Step (state c p checking) (state c p returned)
  check_inactive :
      {c : Checker} {p : Bool}
      → is_active c ≡ false
      → Step (state c p checking) (state c p unregistered)
  registers :
      {c : Checker} {p : Bool}
      → Step (state c p unregistered) (state (subscribe c).1 p (registered (subscribe c).0))
  recheck_active :
      {c : Checker} {p : Bool} {id : ℕ}
      → is_active c ≡ true
      → Step (state c p (registered id)) (state (cancel id c) p returned)
  recheck_inactive :
      {c : Checker} {p : Bool} {id : ℕ}
      → is_active c ≡ false
      → Step (state c p (registered id)) (state c p (blocked id))
  wakes :
      {c : Checker} {p : Bool} {id : ℕ}
      → signalled id c.waiters ≡ some true
      → Step (state c p (blocked id)) (state (cancel id c) p checking)
  gives_up :
      {c : Checker} {p : Bool} {id : ℕ}
      → Step (state c p (blocked id)) (state (cancel id c) p gave_up)
  stores :
      {c : Checker} {pl : Place} (r : Result RoleError Role)
      → Step (state c false pl) (state (store_probe c r).0 (store_probe c r).1 pl)
  notifies : {c : Checker} {pl : Place} → Step (state c true pl) (state (notify c) false pl)
  other_registers :
      {c : Checker} {p : Bool} {pl : Place} → Step (state c p pl) (state (subscribe c).1 p pl)
  other_cancels :
      {c : Checker} {p : Bool} {pl : Place} (j : ℕ)
      → IsForeign j pl
      → Step (state c p pl) (state (cancel j c) p pl)

pub data Reach (o : Options) (sink : Sink) : State → Type 0 where
  started : Reach o sink (state (new o sink) false checking)
  stepped : {st st' : State} → Reach o sink st → Step st st' → Reach o sink st'
