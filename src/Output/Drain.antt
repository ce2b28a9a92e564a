-- ===== src/Output/Drain.antt =====
-- What the drain at shutdown does with the events that still wait.
use redis_watcher.Base.{
  ℕ, suc, ◌≤◌, Bool, true, false, List, [], ◌∷◌, ◌++◌, Option, none, some, ◌≡◌, ◌⊎◌, inl, inr, refl,
  arith, ap, ◌∙◌,
}
use redis_watcher.Base.Bytes.{Bytes}
use redis_watcher.Base.Tests.{Bool-cases, Option-cases}
use redis_watcher.Event.{Event}
use redis_watcher.Output.{Consumer, Effect, write_one, drain, drain_after_shutdown, at_shutdown}

abbrev Drained : Type 0
Drained = Consumer × List Event × List Effect

-- The events that were tried, and then those that are left.
abbrev pub accounted : Drained → List Event
accounted r = r.1 ++ r.0.queue

-- Why a drain ends at round `i` or later: the queue is empty, the deadline, or a failed write.
abbrev pub Ends : (ℕ → Bool) → (ℕ → Option Bytes) → ℕ → Drained → Type 0
Ends expires outcome i r =
    (r.0.queue ≡ [])
    ⊎ ((n : ℕ) × (i ≤ n) × (expires n ≡ true))
    ⊎ ((n : ℕ) × (e : Bytes) × (i ≤ n) × (outcome n ≡ some e))

module _ (expires : ℕ → Bool) (outcome : ℕ → Option Bytes) where
  drain_late :
      (i : ℕ) (ev : Event) (q : List Event) (c : Consumer)
      → expires i ≡ true
      → accounted (drain expires outcome i (ev ∷ q) c) ≡ ev ∷ q
  unfolding drain
  drain_late i ev q c late = ground arith

  drain_fails :
      (i : ℕ) (ev : Event) (q : List Event) (c : Consumer) (e : Bytes)
      → expires i ≡ false
      → outcome i ≡ some e
      → accounted (drain expires outcome i (ev ∷ q) c) ≡ ev ∷ q
  unfolding drain
  drain_fails i ev q c e early fails = ground arith

  drain_works :
      (i : ℕ) (ev : Event) (q : List Event) (c : Consumer)
      → expires i ≡ false
      → outcome i ≡ none
      → let r = drain expires outcome i (ev ∷ q) c in
        let r' = drain expires outcome (suc i) q (write_one at_shutdown ev none c).0 in
        (accounted r ≡ ev ∷ accounted r') × (r.0.queue ≡ r'.0.queue)
  unfolding drain
  drain_works i ev q c early works = (ground arith, ground arith)

  later :
      (i : ℕ) (r r' : Drained)
      → r.0.queue ≡ r'.0.queue
      → Ends expires outcome (suc i) r'
      → Ends expires outcome i r
  later i r r' e (inl h) = inl (e ∙ h)
  later i r r' e (inr (inl (n, le, h))) = inr (inl (n, omega arith, h))
  later i r r' e (inr (inr (n, x, le, h))) = inr (inr (n, x, omega arith, h))

  drain-accounted :
      (i : ℕ) (q : List Event) (c : Consumer)
      → (accounted (drain expires outcome i q c) ≡ q)
        × Ends expires outcome i (drain expires outcome i q c)
  drain-accounted i [] c = unfold drain in (refl, inl refl)
  drain-accounted i (ev ∷ q) c = elim (Bool-cases (expires i)) [
    | inl late ↦ (drain_late i ev q c late, inr (inl (i, omega arith, late)))
    | inr early ↦ elim (Option-cases (outcome i)) [
      | inr (e, fails) ↦ (drain_fails i ev q c e early fails, inr (inr (i, e, omega arith, fails)))
      | inl works ↦
          let (done, why) = drain-accounted (suc i) q (write_one at_shutdown ev none c).0 in
          let (first, left) = drain_works i ev q c early works in
          (
            first ∙ ap (◌∷◌ ev) done,
            later i (drain expires outcome i (ev ∷ q) c)
                (drain expires outcome (suc i) q (write_one at_shutdown ev none c).0) left why,
          )
    ]
  ]

-- The drain tries the waiting events in their order and leaves the rest; it leaves any only where
-- the deadline was taken or a write failed.
pub drain_after_shutdown_lem :
    (expires : ℕ → Bool) (outcome : ℕ → Option Bytes) (c : Consumer)
    → let r = drain_after_shutdown expires outcome c in
      (accounted r ≡ c.queue) × Ends expires outcome 0 r
unfolding drain_after_shutdown
drain_after_shutdown_lem expires outcome c = drain-accounted expires outcome 0 c.queue c
