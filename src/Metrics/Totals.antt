-- ===== src/Metrics/Totals.antt =====
-- What the counters of events hold after any calls of the registry.
use redis_watcher.Base.{
  ℕ, suc, ◌+◌, Bool, true, false, not, ◌&&◌, List, [], ◌∷◌, ◌++◌, ◌≡◌, inl, inr, refl, arith, ap,
  ◌∙◌, sym,
}
use mathlib.Core.Path.{subst}
use redis_watcher.Base.Bytes.{Bytes, is_empty}
use redis_watcher.Base.Lists.{any}
use redis_watcher.Base.Tests.{if◌then◌else◌, Bool-cases}
use redis_watcher.Event.{Event}
use redis_watcher.Go.Int.{ℤ}
use redis_watcher.Metrics.Gauges.{own_place, own_op, method_ops-foreign, same-foreign, or-false}
use redis_watcher.Metrics.Methods.{method_ops}
use redis_watcher.Metrics.Ready.{
  Call, recorded, role, connected, output_failing, channel_failing, counted, apply, after_calls,
}
use redis_watcher.Metrics.Vectors.{Vector, place, Op, inc, observe, reset, total}
use redis_watcher.Metrics.{
  Registry, new_registry, contains, record_ops, record_event, set_redis_role, set_monitor_connected,
  set_output_failing, set_alert_channel_failing,
}

total-foreign :
    (v : Vector) (os ops : List Op)
    → own_place (place v) ≡ true
    → any own_op os ≡ false
    → total v (os ++ ops) ≡ total v ops
unfolding total
total-foreign v [] ops own h = refl
total-foreign v (inc w ks ∷ os) ops own h =
    let (this, rest) = or-false (own_place (place w)) (any own_op os) h in
    rw (same-foreign v w own this) (omega (arith, total-foreign v os ops own rest))
total-foreign v (observe w ks d ∷ os) ops own h =
    let (this, rest) = or-false (own_place (place w)) (any own_op os) h in
    rw (same-foreign v w own this) (omega (arith, total-foreign v os ops own rest))
total-foreign v (reset w ∷ os) ops own h =
    total-foreign v os ops own (or-false (own_place (place w)) (any own_op os) h).1
total-foreign v (Op.set w ks x ∷ os) ops own h =
    total-foreign v os ops own (or-false (own_place (place w)) (any own_op os) h).1

-- The events recorded, and those of them whose command is not ignored.
abbrev pub recorded_count : List Call → ℕ
recorded_count [] = 0
recorded_count (recorded ev ∷ cs) = suc (recorded_count cs)
recorded_count (_ ∷ cs) = recorded_count cs

abbrev pub counted_count : List Bytes → List Call → ℕ
counted_count ignored [] = 0
counted_count ignored (recorded ev ∷ cs) =
    (if contains ignored ev.command then 0 else 1) + counted_count ignored cs
counted_count ignored (_ ∷ cs) = counted_count ignored cs

-- The calls of `Record` in the totals of the three counters.
record_ops-total :
    (ev : Event) (r : Registry) (ops : List Op)
    → (total Vector.events_processed (record_ops ev r ++ ops)
        ≡ suc (total Vector.events_processed ops))
      × (total Vector.commands_total (record_ops ev r ++ ops)
          ≡ (if contains r.ignored ev.command then 0 else 1) + total Vector.commands_total ops)
      × (total Vector.commands_by_db_total (record_ops ev r ++ ops)
          ≡ (if contains r.ignored ev.command then 0 else 1)
            + total Vector.commands_by_db_total ops)
unfolding record_ops total
record_ops-total ev r ops = elim (Bool-cases (contains r.ignored ev.command)) [
  | inl skip ↦ rw skip (omega arith, omega arith, omega arith)
  | inr keep ↦ rw keep (elim (Bool-cases (r.track_source_ip && not (is_empty ev.source.ip))) [
    | inl by_ip ↦ rw by_ip (omega arith, omega arith, omega arith)
    | inr plain ↦ rw plain (omega arith, omega arith, omega arith)
  ])
]

apply-ignored : (c : Call) (r : Registry) → (apply c r).ignored ≡ r.ignored
unfolding apply record_event set_redis_role set_monitor_connected set_output_failing
    set_alert_channel_failing
apply-ignored (recorded ev) r = refl
apply-ignored (role name) r = refl
apply-ignored (connected b) r = refl
apply-ignored (output_failing name b) r = refl
apply-ignored (channel_failing name b) r = refl
apply-ignored (counted m) r = refl

abbrev pub Totals : List Bytes → Registry → List Call → Type 0
Totals ignored r cs =
    (total Vector.events_processed r.ops ≡ recorded_count cs)
    × (total Vector.commands_total r.ops ≡ counted_count ignored cs)
    × (total Vector.commands_by_db_total r.ops ≡ counted_count ignored cs)

apply-Totals :
    (c : Call) (r : Registry) (cs : List Call)
    → Totals r.ignored r cs
    → Totals r.ignored (apply c r) (c ∷ cs)
apply-Totals (recorded ev) r cs (e, n, d) =
    unfold apply record_event in
    let (one, two, three) = record_ops-total ev r r.ops in
    (omega (arith, one, e), two ∙ ap (◌+◌ _) n, three ∙ ap (◌+◌ _) d)
apply-Totals (counted m) r cs (e, n, d) =
    unfold apply own_place in
    let foreign = method_ops-foreign m in
    (
      total-foreign Vector.events_processed (method_ops m) r.ops refl foreign ∙ e,
      total-foreign Vector.commands_total (method_ops m) r.ops refl foreign ∙ n,
      total-foreign Vector.commands_by_db_total (method_ops m) r.ops refl foreign ∙ d,
    )
apply-Totals (role name) r cs t = unfold apply set_redis_role total in t
apply-Totals (connected b) r cs t = unfold apply set_monitor_connected total in t
apply-Totals (output_failing name b) r cs t = unfold apply set_output_failing total in t
apply-Totals (channel_failing name b) r cs t = unfold apply set_alert_channel_failing total in t

module _ (ignored : List Bytes) (track : Bool) (version commit : Bytes) (start : ℤ) where
  abbrev after : List Call → Registry
  after = after_calls (new_registry ignored track version commit start)

  after-ignored : (cs : List Call) → (after cs).ignored ≡ ignored
  unfolding after_calls
  after-ignored [] = unfold new_registry in refl
  after-ignored (c ∷ cs) = apply-ignored c (after cs) ∙ after-ignored cs

  -- After any calls, events_processed_total is the number of recorded events, and the counters by
  -- command and by database, summed over their labels, are both the number of the recorded events
  -- whose command is not ignored.
  pub after_calls-Totals : (cs : List Call) → Totals ignored (after cs) cs
  unfolding after_calls
  after_calls-Totals [] = unfold new_registry total in (refl, refl, refl)
  after_calls-Totals (c ∷ cs) =
      subst (λ i. Totals i (apply c (after cs)) (c ∷ cs)) (after-ignored cs)
        (apply-Totals c (after cs) cs
          (subst (λ i. Totals i (after cs) cs) (sym (after-ignored cs)) (after_calls-Totals cs)))
