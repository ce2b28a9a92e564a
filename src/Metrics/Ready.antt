-- ===== src/Metrics/Ready.antt =====
-- Readiness, read off the calls that the components make.
use redis_watcher.Base.{
  Bool, true, false, not, ◌&&◌, ◌||◌, List, [], ◌∷◌, Option, none, some, ◌≡◌, ◌↔◌, inl, inr, refl,
  arith, ap, ◌∙◌, sym,
}
use redis_watcher.Base.Bytes.{Bytes, is_empty, eq_bytes, eq_bytes_iff, eq_bytes_refl}
use redis_watcher.Base.Tests.{if◌then◌else◌, Bool-cases}
use redis_watcher.Event.{Event}
use redis_watcher.Go.Int.{ℤ}
use redis_watcher.Metrics.Methods.{Method, method_ops}
use redis_watcher.Metrics.{
  Registry, tell, new_registry, contains, record_event, set_redis_role, set_monitor_connected,
  set_output_failing, set_alert_channel_failing, mark, add_name, delete_name, ready, readyz_status,
  is_known,
}

-- The calls that the components make of the registry.
pub data Call : Type 0 where
  recorded : Event → Call
  role : Bytes → Call
  connected : Bool → Call
  output_failing : Bytes → Bool → Call
  channel_failing : Bytes → Bool → Call
  counted : Method → Call

unfoldable pub apply : Call → Registry → Registry
apply (recorded ev) r = record_event ev r
apply (role name) r = set_redis_role name r
apply (connected b) r = set_monitor_connected b r
apply (output_failing name b) r = set_output_failing name b r
apply (channel_failing name b) r = set_alert_channel_failing name b r
apply (counted m) r = tell (method_ops m) r

-- The registry after the calls, the latest of them first.
unfoldable pub after_calls : Registry → List Call → Registry
after_calls r [] = r
after_calls r (c ∷ cs) = apply c (after_calls r cs)

-- The latest call of a kind, as a Boolean; false where there was none.
unfoldable pub latest : (Call → Option Bool) → List Call → Bool
latest f [] = false
latest f (c ∷ cs) = elim (f c) [ none ↦ latest f cs | some b ↦ b ]

abbrev pub connection : Call → Option Bool
connection (connected b) = some b
connection _ = none

abbrev pub role_test : Call → Option Bool
role_test (role name) = some (is_known name)
role_test _ = none

abbrev pub output_test : Bytes → Call → Option Bool
output_test k (output_failing name b) = if eq_bytes k name then some b else none
output_test k _ = none

abbrev pub channel_test : Bytes → Call → Option Bool
channel_test k (channel_failing name b) = if eq_bytes k name then some b else none
channel_test k _ = none

contains-add_name :
    (k name : Bytes) (set : List Bytes)
    → contains (add_name name set) k ≡ (eq_bytes k name || contains set k)
unfolding add_name
contains-add_name k name set = elim (Bool-cases (contains set name)) [
  | inr new ↦ rw new refl
  | inl there ↦ rw there (elim (Bool-cases (eq_bytes k name)) [
    | inr other ↦ rw other refl
    | inl same ↦ rw same (ap (contains set) ((eq_bytes_iff k name).0 same) ∙ there)
  ])
]

contains-delete_name :
    (k name : Bytes) (set : List Bytes)
    → contains (delete_name name set) k ≡ (not (eq_bytes k name) && contains set k)
unfolding delete_name
contains-delete_name k name [] = ground arith
contains-delete_name k name (n ∷ set) = ground (
  arith,
  contains-delete_name k name set,
  eq_bytes_iff k name,
  eq_bytes_iff name n,
  eq_bytes_iff k n,
)

pub contains-mark :
    (k name : Bytes) (b : Bool) (set : List Bytes)
    → contains (mark name b set) k ≡ (if eq_bytes k name then b else contains set k)
unfolding mark
contains-mark k name true set = ground (arith, contains-add_name k name set)
contains-mark k name false set = ground (arith, contains-delete_name k name set)

is_empty-contains :
    (set : List Bytes) → (is_empty set ≡ true) ↔ ((k : Bytes) → contains set k ≡ false)
is_empty-contains [] = (λ h. λ k. refl, λ h. refl)
is_empty-contains (n ∷ set) = (λ h. cc, λ h. absurd (clash (h n)))
  where
    clash : (eq_bytes n n || contains set n) ≡ false → ⊥
    clash k = ground (arith, eq_bytes_refl n)

-- The four conditions of the probe.
abbrev Conditions : Registry → Type 0
Conditions r =
    (r.monitor_connected ≡ true)
    × (r.role_known ≡ true)
    × (is_empty r.failing_outputs ≡ true)
    × (is_empty r.failing_alert_channels ≡ true)

readyz_status-Conditions : (r : Registry) → (readyz_status r ≡ 200) ↔ Conditions r
unfolding readyz_status ready
readyz_status-Conditions r =
    (λ h. (ground arith, ground arith, ground arith, ground arith), λ h. ground arith)

module _ (ignored : List Bytes) (track : Bool) (version commit : Bytes) (start : ℤ) where
  abbrev after : List Call → Registry
  after = after_calls (new_registry ignored track version commit start)

  failing_outputs-latest :
      (k : Bytes) (cs : List Call)
      → contains (after cs).failing_outputs k ≡ latest (output_test k) cs
  unfolding after_calls apply latest record_event set_redis_role set_monitor_connected
      set_output_failing set_alert_channel_failing new_registry
  failing_outputs-latest k [] = refl
  failing_outputs-latest k (recorded ev ∷ cs) = failing_outputs-latest k cs
  failing_outputs-latest k (role name ∷ cs) = failing_outputs-latest k cs
  failing_outputs-latest k (connected b ∷ cs) = failing_outputs-latest k cs
  failing_outputs-latest k (output_failing name b ∷ cs) =
      ground (arith, failing_outputs-latest k cs, contains-mark k name b (after cs).failing_outputs)
  failing_outputs-latest k (channel_failing name b ∷ cs) = failing_outputs-latest k cs
  failing_outputs-latest k (counted m ∷ cs) = failing_outputs-latest k cs

  failing_channels-latest :
      (k : Bytes) (cs : List Call)
      → contains (after cs).failing_alert_channels k ≡ latest (channel_test k) cs
  unfolding after_calls apply latest record_event set_redis_role set_monitor_connected
      set_output_failing set_alert_channel_failing new_registry
  failing_channels-latest k [] = refl
  failing_channels-latest k (recorded ev ∷ cs) = failing_channels-latest k cs
  failing_channels-latest k (role name ∷ cs) = failing_channels-latest k cs
  failing_channels-latest k (connected b ∷ cs) = failing_channels-latest k cs
  failing_channels-latest k (output_failing name b ∷ cs) = failing_channels-latest k cs
  failing_channels-latest k (channel_failing name b ∷ cs) = ground (
    arith,
    failing_channels-latest k cs,
    contains-mark k name b (after cs).failing_alert_channels,
  )
  failing_channels-latest k (counted m ∷ cs) = failing_channels-latest k cs

  flags-latest :
      (cs : List Call)
      → ((after cs).monitor_connected ≡ latest connection cs)
        × ((after cs).role_known ≡ latest role_test cs)
  unfolding after_calls apply latest record_event set_redis_role set_monitor_connected
      set_output_failing set_alert_channel_failing new_registry
  flags-latest [] = (refl, refl)
  flags-latest (recorded ev ∷ cs) = flags-latest cs
  flags-latest (role name ∷ cs) = ((flags-latest cs).0, refl)
  flags-latest (connected b ∷ cs) = (refl, (flags-latest cs).1)
  flags-latest (output_failing name b ∷ cs) = flags-latest cs
  flags-latest (channel_failing name b ∷ cs) = flags-latest cs
  flags-latest (counted m ∷ cs) = flags-latest cs

  -- The probe answers 200 exactly when the latest call about the connection says that it stands,
  -- the latest role is a known one, and for no name of an output or of a channel the latest call
  -- says that it fails. Calls of other kinds, and their order otherwise, make no difference.
  pub readyz_status_iff :
      (cs : List Call)
      → (readyz_status (after cs) ≡ 200) ↔ (
          (latest connection cs ≡ true)
          × (latest role_test cs ≡ true)
          × ((k : Bytes) → latest (output_test k) cs ≡ false)
          × ((k : Bytes) → latest (channel_test k) cs ≡ false))
  readyz_status_iff cs =
      let (down, up) = readyz_status-Conditions (after cs) in
      let (conn, known) = flags-latest cs in
      let (outs, outs') = is_empty-contains (after cs).failing_outputs in
      let (chans, chans') = is_empty-contains (after cs).failing_alert_channels in
      (
        λ h.
            let (a, b, o, c) = down h in
            (
              sym conn ∙ a,
              sym known ∙ b,
              λ k. sym (failing_outputs-latest k cs) ∙ outs o k,
              λ k. sym (failing_channels-latest k cs) ∙ chans c k,
            ),
        λ h. up (
          conn ∙ h.0,
          known ∙ h.1,
          outs' (λ k. failing_outputs-latest k cs ∙ h.2 k),
          chans' (λ k. failing_channels-latest k cs ∙ h.3 k),
        ),
      )
