-- ===== src/Metrics/Halves.antt =====
-- What the gauges show after any calls of the registry, against its state, with the calls of two
-- consumers in turns.
use redis_watcher.Base.{Bool, true, false, List, [], ◌∷◌, ◌++◌, ◌≡◌, inl, inr, refl, ap, ◌∙◌, sym}
use redis_watcher.Base.Bytes.{Bytes, eq_bytes}
use redis_watcher.Base.Tests.{if◌then◌else◌, Bool-cases}
use redis_watcher.Go.Int.{ℤ}
use redis_watcher.Metrics.Ready.{
  Call, recorded, role, connected, output_failing, channel_failing, counted, apply, contains-mark,
}
use redis_watcher.Metrics.Vectors.{Vector, same, Op, shown}
use redis_watcher.Metrics.{
  Registry, new_registry, contains, one_if, record_event, set_redis_role, set_monitor_connected,
  gauge_output_failing, keep_output_failing, set_output_failing, set_alert_channel_failing,
}
use redis_watcher.Metrics.Gauges.{own_place, is_one, is_one-one_if, apply-recorded, apply-counted}

-- A step of the components: a whole call, or a half of `SetOutputFailing`. The consumers of outputs
-- run side by side, while only one goroutine calls `SetMonitorConnected` and one
-- `SetAlertChannelFailing`.
pub data Half : Type 0 where
  whole : Call → Half
  gauged : Bytes → Bool → Half
  kept : Bytes → Bool → Half

unfoldable pub apply_half : Half → Registry → Registry
unfolding apply
apply_half (whole c) r = apply c r
apply_half (gauged name b) r = gauge_output_failing name b r
apply_half (kept name b) r = keep_output_failing name b r

-- The steps come latest first.
unfoldable pub after_halves : Registry → List Half → Registry
unfolding apply_half
after_halves r [] = r
after_halves r (h ∷ hs) = apply_half h (after_halves r hs)

-- What was set for one output.
pub data Part : Type 0 where
  gauge lock : Bool → Part

abbrev pub parts_at : Bytes → Half → List Part
parts_at k (gauged name b) = if eq_bytes k name then gauge b ∷ [] else []
parts_at k (kept name b) = if eq_bytes k name then lock b ∷ [] else []
parts_at k (whole (output_failing name b)) = if eq_bytes k name then lock b ∷ gauge b ∷ [] else []
parts_at k (whole _) = []

abbrev pub parts : Bytes → List Half → List Part
parts k [] = []
parts k (h ∷ hs) = parts_at k h ++ parts k hs

-- Calls one after the other.
abbrev pub calls_of : List Bool → List Part
calls_of [] = []
calls_of (b ∷ bs) = lock b ∷ gauge b ∷ calls_of bs

abbrev last_gauge : List Part → Bool
last_gauge [] = false
last_gauge (gauge b ∷ ps) = b
last_gauge (lock b ∷ ps) = last_gauge ps

abbrev last_lock : List Part → Bool
last_lock [] = false
last_lock (lock b ∷ ps) = b
last_lock (gauge b ∷ ps) = last_lock ps

last_gauge-calls_of : (bs : List Bool) → last_gauge (calls_of bs) ≡ last_lock (calls_of bs)
last_gauge-calls_of [] = refl
last_gauge-calls_of (b ∷ bs) = refl

gauge-set :
    (v : Vector) (k name : Bytes) (b : Bool) (ops : List Op)
    → same v v ≡ true
    → is_one (shown v (k ∷ []) (Op.set v (name ∷ []) (one_if b) ∷ ops))
      ≡ (if eq_bytes k name then b else is_one (shown v (k ∷ []) ops))
unfolding shown
gauge-set v k name b ops eq = elim (Bool-cases (eq_bytes k name)) [
  | inl this ↦ rw (eq, this) (is_one-one_if b)
  | inr other ↦ rw (eq, other) refl
]

-- What each gauge and each set has come to.
abbrev Told : List Half → Registry → Type 0
Told hs r =
    (is_one (shown Vector.monitor_connected [] r.ops) ≡ r.monitor_connected)
    × ((k : Bytes) → is_one (shown Vector.output_failing (k ∷ []) r.ops) ≡ last_gauge (parts k hs))
    × ((k : Bytes) → contains r.failing_outputs k ≡ last_lock (parts k hs))
    × ((k : Bytes)
        → is_one (shown Vector.alert_channel_failing (k ∷ []) r.ops)
          ≡ contains r.failing_alert_channels k)

gauged-parts :
    (k name : Bytes) (b : Bool) (hs : List Half)
    → (if eq_bytes k name then b else last_gauge (parts k hs))
      ≡ last_gauge (parts k (gauged name b ∷ hs))
gauged-parts k name b hs = elim (Bool-cases (eq_bytes k name)) [
  | inl this ↦ rw this refl
  | inr other ↦ rw other refl
]

kept-parts :
    (k name : Bytes) (b : Bool) (hs : List Half)
    → (if eq_bytes k name then b else last_lock (parts k hs))
      ≡ last_lock (parts k (kept name b ∷ hs))
kept-parts k name b hs = elim (Bool-cases (eq_bytes k name)) [
  | inl this ↦ rw this refl
  | inr other ↦ rw other refl
]

-- A half leaves the other one's parts alone.
gauged-lock :
    (k name : Bytes) (b : Bool) (hs : List Half)
    → last_lock (parts k hs) ≡ last_lock (parts k (gauged name b ∷ hs))
gauged-lock k name b hs = elim (Bool-cases (eq_bytes k name)) [
  | inl this ↦ rw this refl
  | inr other ↦ rw other refl
]

kept-gauge :
    (k name : Bytes) (b : Bool) (hs : List Half)
    → last_gauge (parts k hs) ≡ last_gauge (parts k (kept name b ∷ hs))
kept-gauge k name b hs = elim (Bool-cases (eq_bytes k name)) [
  | inl this ↦ rw this refl
  | inr other ↦ rw other refl
]

gauged-Told :
    (name : Bytes) (b : Bool) (hs : List Half) (r : Registry)
    → Told hs r
    → Told (gauged name b ∷ hs) (gauge_output_failing name b r)
gauged-Told name b hs r (conn, outs, locks, chans) =
    unfold gauge_output_failing in
    (
      unfold shown in conn,
      λ k.
          gauge-set Vector.output_failing k name b r.ops refl
          ∙ ap (λ x. if eq_bytes k name then b else x) (outs k)
          ∙ gauged-parts k name b hs,
      λ k. locks k ∙ gauged-lock k name b hs,
      unfold shown in chans,
    )

kept-Told :
    (name : Bytes) (b : Bool) (hs : List Half) (r : Registry)
    → Told hs r
    → Told (kept name b ∷ hs) (keep_output_failing name b r)
kept-Told name b hs r (conn, outs, locks, chans) =
    unfold keep_output_failing in
    (
      conn,
      λ k. outs k ∙ kept-gauge k name b hs,
      λ k.
          contains-mark k name b r.failing_outputs
          ∙ ap (λ x. if eq_bytes k name then b else x) (locks k)
          ∙ kept-parts k name b hs,
      chans,
    )

-- A whole call for an output is its two halves.
whole-parts :
    (k name : Bytes) (b : Bool) (hs : List Half)
    → parts k (kept name b ∷ gauged name b ∷ hs) ≡ parts k (whole (output_failing name b) ∷ hs)
whole-parts k name b hs = elim (Bool-cases (eq_bytes k name)) [
  | inl this ↦ rw this refl
  | inr other ↦ rw other refl
]

whole-Told :
    (c : Call) (hs : List Half) (r : Registry) → Told hs r → Told (whole c ∷ hs) (apply c r)
whole-Told (recorded ev) hs r (conn, outs, locks, chans) = (
  ap is_one (apply-recorded Vector.monitor_connected [] ev r) ∙ unfold apply record_event in conn,
  λ k. ap is_one (apply-recorded Vector.output_failing (k ∷ []) ev r) ∙ outs k,
  unfold apply record_event in locks,
  λ k.
      ap is_one (apply-recorded Vector.alert_channel_failing (k ∷ []) ev r)
      ∙ unfold apply record_event in chans k,
)
whole-Told (counted m) hs r (conn, outs, locks, chans) =
    unfold own_place apply in
    (
      ap is_one (apply-counted Vector.monitor_connected [] m r refl) ∙ conn,
      λ k. ap is_one (apply-counted Vector.output_failing (k ∷ []) m r refl) ∙ outs k,
      locks,
      λ k. ap is_one (apply-counted Vector.alert_channel_failing (k ∷ []) m r refl) ∙ chans k,
    )
whole-Told (role name) hs r (conn, outs, locks, chans) =
    unfold apply set_redis_role shown in (conn, outs, locks, chans)
whole-Told (connected b) hs r (conn, outs, locks, chans) =
    unfold apply set_monitor_connected shown in (is_one-one_if b, outs, locks, chans)
whole-Told (output_failing name b) hs r told =
    let (conn, outs, locks, chans) =
      kept-Told name b (gauged name b ∷ hs) (gauge_output_failing name b r)
        (gauged-Told name b hs r told) in
    unfold apply set_output_failing in
    (
      conn,
      λ k. outs k ∙ ap last_gauge (whole-parts k name b hs),
      λ k. locks k ∙ ap last_lock (whole-parts k name b hs),
      chans,
    )
whole-Told (channel_failing name b) hs r (conn, outs, locks, chans) =
    unfold apply set_alert_channel_failing in
    (
      unfold shown in conn,
      unfold shown in outs,
      locks,
      λ k.
          gauge-set Vector.alert_channel_failing k name b r.ops refl
          ∙ ap (λ x. if eq_bytes k name then b else x) (chans k)
          ∙ sym (contains-mark k name b r.failing_alert_channels),
    )

module _ (ignored : List Bytes) (track : Bool) (version commit : Bytes) (start : ℤ) where
  abbrev after : List Half → Registry
  after = after_halves (new_registry ignored track version commit start)

  after_halves-Told : (hs : List Half) → Told hs (after hs)
  unfolding after_halves apply_half
  after_halves-Told [] = unfold new_registry shown in (refl, λ k. refl, λ k. refl, λ k. refl)
  after_halves-Told (whole c ∷ hs) = whole-Told c hs (after hs) (after_halves-Told hs)
  after_halves-Told (gauged name b ∷ hs) = gauged-Told name b hs (after hs) (after_halves-Told hs)
  after_halves-Told (kept name b ∷ hs) = kept-Told name b hs (after hs) (after_halves-Told hs)

  -- After any calls, with the gauge and the set of `SetOutputFailing` as two steps that those for
  -- other outputs may come between: the gauges monitor_connected and alert_channel_failing show what
  -- the readiness probe reads, and so does output_failing for an output whose own calls come one
  -- after the other, as those of one consumer do. The gauge of a name is 1 exactly when the name is
  -- in the set of failing ones.
  pub after_halves-calls_of :
      (hs : List Half) (k : Bytes) (bs : List Bool)
      → parts k hs ≡ calls_of bs
      → (is_one (shown Vector.monitor_connected [] (after hs).ops) ≡ (after hs).monitor_connected)
        × (is_one (shown Vector.output_failing (k ∷ []) (after hs).ops)
            ≡ contains (after hs).failing_outputs k)
        × ((c : Bytes)
            → is_one (shown Vector.alert_channel_failing (c ∷ []) (after hs).ops)
              ≡ contains (after hs).failing_alert_channels c)
  after_halves-calls_of hs k bs same =
      let (conn, outs, locks, chans) = after_halves-Told hs in
      (
        conn,
        outs k
            ∙ ap last_gauge same
            ∙ last_gauge-calls_of bs
            ∙ ap last_lock (sym same)
            ∙ sym (locks k),
        chans,
      )
