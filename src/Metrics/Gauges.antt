-- ===== src/Metrics/Gauges.antt =====
-- What the calls of the registry leave alone in its gauges.
use redis_watcher.Base.{
  ℕ, Bool, true, false, not, ◌&&◌, ◌||◌, List, [], ◌∷◌, ◌++◌, Option, some, ◌≡◌, inl, inr, refl,
  arith, ap, ◌∙◌, sym,
}
use redis_watcher.Base.Bytes.{Bytes, is_empty}
use redis_watcher.Base.Lists.{any}
use redis_watcher.Base.Tests.{◌==◌, Bool-cases}
use redis_watcher.Event.{Event}
use redis_watcher.Go.Int.{ℤ, pos}
use redis_watcher.Metrics.Methods.{
  Method, method_ops, record_suspicious, record_role_transition, observe_last_event,
  observe_monitor_session, incr_parse_error, incr_reconnect, incr_monitor_dropped,
  incr_output_written, incr_output_dropped, incr_output_error, observe_output_write, alert_sent,
  alert_error, suspicious_observed, alert_retry, alert_dropped, alert_rate_limited,
  observe_alert_send, record_role_probe, incr_ignored_event, suspicious, role_transition,
  last_event, monitor_session, parse_error, reconnect, monitor_dropped, output_written,
  output_dropped, output_error, output_write, sent, send_error, observed, retry, dropped,
  rate_limited, alert_send, role_probe, ignored_event,
}
use redis_watcher.Metrics.Ready.{recorded, counted, apply}
use redis_watcher.Metrics.Vectors.{Vector, place, same, Op, inc, observe, reset, shown}
use redis_watcher.Metrics.{Registry, contains, one_if, record_ops, record_event}

-- The vectors that no `Method` touches.
unfoldable pub own_place : ℕ → Bool
own_place n =
    n == 0 || n == 1 || n == 2 || n == 3 || n == 19 || n == 22 || n == 23 || n == 24 || n == 28

abbrev pub own_op : Op → Bool
own_op (inc v ls) = own_place (place v)
own_op (Op.set v ls x) = own_place (place v)
own_op (observe v ls d) = own_place (place v)
own_op (reset v) = own_place (place v)

pub method_ops-foreign : (m : Method) → any own_op (method_ops m) ≡ false
unfolding own_place method_ops record_suspicious record_role_transition observe_last_event
    observe_monitor_session incr_parse_error incr_reconnect incr_monitor_dropped incr_output_written
    incr_output_dropped incr_output_error observe_output_write alert_sent alert_error
    suspicious_observed alert_retry alert_dropped alert_rate_limited observe_alert_send
    record_role_probe incr_ignored_event
method_ops-foreign (suspicious c ip) = refl
method_ops-foreign (role_transition a b) = refl
method_ops-foreign (last_event t) = refl
method_ops-foreign (monitor_session d) = refl
method_ops-foreign parse_error = refl
method_ops-foreign reconnect = refl
method_ops-foreign monitor_dropped = refl
method_ops-foreign (output_written o) = refl
method_ops-foreign (output_dropped o) = refl
method_ops-foreign (output_error o) = refl
method_ops-foreign (output_write o d) = refl
method_ops-foreign (sent ch c) = refl
method_ops-foreign (send_error ch) = refl
method_ops-foreign (observed c ip) = refl
method_ops-foreign (retry ch) = refl
method_ops-foreign dropped = refl
method_ops-foreign (rate_limited c) = refl
method_ops-foreign (alert_send ch d) = refl
method_ops-foreign (role_probe now true d) = refl
method_ops-foreign (role_probe now false d) = refl
method_ops-foreign (ignored_event c) = refl

eq_place : (m n : ℕ) → (m == n) ≡ true → m ≡ n
eq_place m n h = ground arith

pub same-foreign :
    (v w : Vector) → own_place (place v) ≡ true → own_place (place w) ≡ false → same v w ≡ false
same-foreign v w own h = elim (Bool-cases (same v w)) [
  | inr other ↦ other
  | inl eq ↦ absurd (clash (sym own ∙ ap own_place (eq_place (place v) (place w) eq) ∙ h))
]
  where
    clash : true ≡ false → ⊥
    clash k = cc

pub or-false : (a b : Bool) → (a || b) ≡ false → (a ≡ false) × (b ≡ false)
or-false a b h = (ground arith, ground arith)

shown-foreign :
    (v : Vector) (ls : List Bytes) (os ops : List Op)
    → own_place (place v) ≡ true
    → any own_op os ≡ false
    → shown v ls (os ++ ops) ≡ shown v ls ops
unfolding shown
shown-foreign v ls [] ops own h = refl
shown-foreign v ls (inc w ks ∷ os) ops own h =
    shown-foreign v ls os ops own (or-false (own_place (place w)) (any own_op os) h).1
shown-foreign v ls (observe w ks d ∷ os) ops own h =
    shown-foreign v ls os ops own (or-false (own_place (place w)) (any own_op os) h).1
shown-foreign v ls (reset w ∷ os) ops own h =
    let (this, rest) = or-false (own_place (place w)) (any own_op os) h in
    rw (same-foreign v w own this) (shown-foreign v ls os ops own rest)
shown-foreign v ls (Op.set w ks x ∷ os) ops own h =
    let (this, rest) = or-false (own_place (place w)) (any own_op os) h in
    rw (same-foreign v w own this) (shown-foreign v ls os ops own rest)

abbrev pub is_one : Option ℤ → Bool
is_one (some (pos n)) = n == 1
is_one _ = false

pub is_one-one_if : (b : Bool) → is_one (some (one_if b)) ≡ b
is_one-one_if true = refl
is_one-one_if false = refl

-- What each call but `Record` and the methods does to three gauges.
pub apply-recorded :
    (v : Vector) (ls : List Bytes) (ev : Event) (r : Registry)
    → shown v ls (apply (recorded ev) r).ops ≡ shown v ls r.ops
unfolding apply record_event record_ops shown
apply-recorded v ls ev r = elim (Bool-cases (contains r.ignored ev.command)) [
  | inl skip ↦ rw skip refl
  | inr keep ↦ rw keep (elim (Bool-cases (r.track_source_ip && not (is_empty ev.source.ip))) [
    | inl by_ip ↦ rw by_ip refl
    | inr plain ↦ rw plain refl
  ])
]

pub apply-counted :
    (v : Vector) (ls : List Bytes) (m : Method) (r : Registry)
    → own_place (place v) ≡ true
    → shown v ls (apply (counted m) r).ops ≡ shown v ls r.ops
unfolding apply
apply-counted v ls m r own = shown-foreign v ls (method_ops m) r.ops own (method_ops-foreign m)
