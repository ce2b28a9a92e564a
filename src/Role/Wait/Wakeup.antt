-- ===== src/Role/Wait/Wakeup.antt =====
-- No wake-up is lost: the invariant of the waiter and the checker.
use redis_watcher.Base.{
  ℕ, Bool, true, false, List, [], ◌∷◌, ◌++◌, some, ◌≡◌, ◌≢◌, ◌↔◌, ◌⊎◌, inl, inr, refl, arith, ap,
  ◌∙◌, sym,
}
use redis_watcher.Base.Bytes.{eq_bytes, eq_bytes_iff}
use redis_watcher.Base.Results.{Result, ok, err}
use redis_watcher.Base.Tests.{◌==◌, Bool-cases}
use redis_watcher.Role.{
  Checker, Options, Sink, Role, RoleError, Waiter, new, is_active, subscribe, cancel, notify,
  notify_all, remove_waiter, store_probe, role_master,
}
use redis_watcher.Role.Wait.{
  Place, State, Step, Reach, IsForeign, signalled, checking, unregistered, registered, blocked,
  returned, gave_up, state, check_active, check_inactive, registers, recheck_active,
  recheck_inactive, wakes, gives_up, stores, notifies, other_registers, other_cancels, started,
  stepped,
}

-- The flag agrees with the role, and a blocked waiter has its channel registered; where the checker
-- is active, the signal is in the channel or a notification is on its way.
abbrev Consistent : Checker → Type 0
Consistent c = c.is_master ≡ eq_bytes c.current role_master

abbrev Held : Checker → Bool → Place → Type 0
Held c p (registered id) = (b : Bool) × (signalled id c.waiters ≡ some b)
Held c p (blocked id) =
    (b : Bool) × (signalled id c.waiters ≡ some b) × (is_active c ≡ true → (p ≡ true) ⊎ (b ≡ true))
Held c p _ = Unit {0}

abbrev Safe : State → Type 0
Safe (state c p pl) = Consistent c × Held c p pl

signalled-append :
    (id : ℕ) (ws vs : List Waiter) (b : Bool)
    → signalled id ws ≡ some b
    → signalled id (ws ++ vs) ≡ some b
unfolding signalled
signalled-append id [] vs b h = ground arith
signalled-append id (w ∷ ws) vs b h = ground (arith, signalled-append id ws vs b)

signalled_own :
    (id : ℕ) (ws : List Waiter)
    → (b : Bool) × (signalled id (ws ++ record { id = id; signalled = false } ∷ []) ≡ some b)
unfolding signalled
signalled_own id [] = (false, ground arith)
signalled_own id (w ∷ ws) =
    let (b, h) = signalled_own id ws in
    elim (Bool-cases (w.id == id)) [
      | inl own ↦ (w.signalled, rw own refl)
      | inr other ↦ (b, rw other h)
    ]

signalled-notify_all :
    (id : ℕ) (ws : List Waiter) (b : Bool)
    → signalled id ws ≡ some b
    → signalled id (notify_all ws) ≡ some true
unfolding signalled notify_all
signalled-notify_all id [] b h = ground arith
signalled-notify_all id (w ∷ ws) b h = ground (arith, signalled-notify_all id ws b)

signalled-remove_waiter :
    (id j : ℕ) (ws : List Waiter) (b : Bool)
    → j ≢ id
    → signalled id ws ≡ some b
    → signalled id (remove_waiter j ws) ≡ some b
unfolding signalled remove_waiter
signalled-remove_waiter id j [] b n h = h
signalled-remove_waiter id j (w ∷ ws) b n h = ground (arith, signalled-remove_waiter id j ws b)

store_probe-Consistent :
    (c : Checker) (r : Result RoleError Role) → Consistent c → Consistent (store_probe c r).0
unfolding store_probe
store_probe-Consistent c (ok role) h = refl
store_probe-Consistent c (err e) h = h

-- A store that makes the checker active where it was not is followed by a notification.
store_probe-active :
    (c : Checker) (r : Result RoleError Role)
    → Consistent c
    → is_active (store_probe c r).0 ≡ true
    → (is_active c ≡ true) ⊎ ((store_probe c r).1 ≡ true)
unfolding store_probe is_active
store_probe-active c (ok role) k h = ground (arith, eq_bytes_iff c.current role)
store_probe-active c (err e) k h = inl h

store_probe-waiters :
    (c : Checker) (r : Result RoleError Role) → (store_probe c r).0.waiters ≡ c.waiters
unfolding store_probe
store_probe-waiters c (ok role) = refl
store_probe-waiters c (err e) = refl

stores-Held :
    (pl : Place) (c : Checker) (r : Result RoleError Role)
    → Consistent c
    → Held c false pl
    → Held (store_probe c r).0 (store_probe c r).1 pl
stores-Held checking c r k h = tt
stores-Held unregistered c r k h = tt
stores-Held returned c r k h = tt
stores-Held gave_up c r k h = tt
stores-Held (registered id) c r k (b, s) = (b, ap (signalled id) (store_probe-waiters c r) ∙ s)
stores-Held (blocked id) c r k (b, s, held) = (
  b,
  ap (signalled id) (store_probe-waiters c r) ∙ s,
  λ active. elim (store_probe-active c r k active) [
    | inr pending ↦ inl pending
    | inl before ↦ elim (held before) [
      | inl no_pending ↦ absurd (false_true no_pending)
      | inr there ↦ inr there
    ]
  ],
)
  where
    false_true : ◌≡◌ {A = Bool} false true → ⊥
    false_true e = cc

notifies-Held : (pl : Place) (c : Checker) → Held c true pl → Held (notify c) false pl
unfolding notify
notifies-Held checking c h = tt
notifies-Held unregistered c h = tt
notifies-Held returned c h = tt
notifies-Held gave_up c h = tt
notifies-Held (registered id) c (b, s) = (true, signalled-notify_all id c.waiters b s)
notifies-Held (blocked id) c (b, s, held) =
    (true, signalled-notify_all id c.waiters b s, λ active. inr refl)

other_registers-Held :
    (pl : Place) (c : Checker) (p : Bool) → Held c p pl → Held (subscribe c).1 p pl
unfolding subscribe is_active
other_registers-Held checking c p h = tt
other_registers-Held unregistered c p h = tt
other_registers-Held returned c p h = tt
other_registers-Held gave_up c p h = tt
other_registers-Held (registered id) c p (b, s) = (b, signalled-append id c.waiters _ b s)
other_registers-Held (blocked id) c p (b, s, held) = (b, signalled-append id c.waiters _ b s, held)

other_cancels-Held :
    (pl : Place) (c : Checker) (p : Bool) (j : ℕ)
    → IsForeign j pl
    → Held c p pl
    → Held (cancel j c) p pl
unfolding cancel is_active
other_cancels-Held checking c p j f h = tt
other_cancels-Held unregistered c p j f h = tt
other_cancels-Held returned c p j f h = tt
other_cancels-Held gave_up c p j f h = tt
other_cancels-Held (registered id) c p j f (b, s) =
    (b, signalled-remove_waiter id j c.waiters b f s)
other_cancels-Held (blocked id) c p j f (b, s, held) =
    (b, signalled-remove_waiter id j c.waiters b f s, held)

own-Held : (c : Checker) (p : Bool) → Held (subscribe c).1 p (registered (subscribe c).0)
unfolding subscribe
own-Held c p = signalled_own c.next_id c.waiters

cancel-Consistent : (c : Checker) (id : ℕ) → Consistent c → Consistent (cancel id c)
unfolding cancel
cancel-Consistent c id k = k

subscribe-Consistent : (c : Checker) → Consistent c → Consistent (subscribe c).1
unfolding subscribe
subscribe-Consistent c k = k

notify-Consistent : (c : Checker) → Consistent c → Consistent (notify c)
unfolding notify
notify-Consistent c k = k

not_active : (c : Checker) → is_active c ≡ false → is_active c ≡ true → ⊥
not_active c h k = cc

Step-Safe : (st st' : State) → Step st st' → Safe st → Safe st'
Step-Safe _ _ (check_active _) (k, h) = (k, tt)
Step-Safe _ _ (check_inactive _) (k, h) = (k, tt)
Step-Safe _ _ (registers {c} {p}) (k, h) = (subscribe-Consistent c k, own-Held c p)
Step-Safe _ _ (recheck_active {c} {p} {id} _) (k, h) = (cancel-Consistent c id k, tt)
Step-Safe _ _ (recheck_inactive {c} {p} {id} idle) (k, (b, s)) =
    (k, (b, s, λ active. absurd (not_active c idle active)))
Step-Safe _ _ (wakes {c} {p} {id} _) (k, h) = (cancel-Consistent c id k, tt)
Step-Safe _ _ (gives_up {c} {p} {id}) (k, h) = (cancel-Consistent c id k, tt)
Step-Safe _ _ (stores {c} {pl} r) (k, h) = (store_probe-Consistent c r k, stores-Held pl c r k h)
Step-Safe _ _ (notifies {c} {pl}) (k, h) = (notify-Consistent c k, notifies-Held pl c h)
Step-Safe _ _ (other_registers {c} {p} {pl}) (k, h) =
    (subscribe-Consistent c k, other_registers-Held pl c p h)
Step-Safe _ _ (other_cancels {c} {p} {pl} j f) (k, h) =
    (cancel-Consistent c j k, other_cancels-Held pl c p j f h)

module _ (o : Options) (sink : Sink) where
  new-Consistent : Consistent (new o sink)
  unfolding new
  new-Consistent = unfold eq_bytes in refl

  Reach-Safe : (st : State) → Reach o sink st → Safe st
  Reach-Safe _ started = (new-Consistent, tt)
  Reach-Safe st' (stepped {st} r s) = Step-Safe st st' s (Reach-Safe st r)

  -- No wake-up is lost: in every interleaving of probes, of this waiter and of other subscribers,
  -- a waiter that is blocked while the checker is active, with no notification on its way, has the
  -- signal in its channel.
  pub blocked-signalled :
      (c : Checker) (id : ℕ)
      → Reach o sink (state c false (blocked id))
      → is_active c ≡ true
      → signalled id c.waiters ≡ some true
  blocked-signalled c id r active =
      let (k, (b, s, held)) = Reach-Safe (state c false (blocked id)) r in
      elim (held active) [
        | inl pending ↦ absurd (false_true' pending)
        | inr there ↦ s ∙ ap some there
      ]
    where
      false_true' : ◌≡◌ {A = Bool} false true → ⊥
      false_true' e = cc

  -- In every reachable state the flag says primary exactly when the role observed last is master.
  pub is_master-current :
      (c : Checker) (p : Bool) (pl : Place)
      → Reach o sink (state c p pl)
      → (c.is_master ≡ true) ↔ (c.current ≡ role_master)
  is_master-current c p pl r =
      let (k, h) = Reach-Safe (state c p pl) r in
      (
        λ e. (eq_bytes_iff c.current role_master).0 (sym k ∙ e),
        λ e. k ∙ (eq_bytes_iff c.current role_master).1 e,
      )
