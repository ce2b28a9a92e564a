-- ===== src/Alert/Retry/Laws.antt =====
-- Every way in which a delivery can end, with what the metrics and Sentry are told of it.
use redis_watcher.Base.{
  ℕ, suc, zero, ◌+◌, ◌≤◌, true, false, none, some, ◌≡◌, ◌↔◌, inl, inr, refl, arith, ap, ◌∙◌, sym,
}
use mathlib.Core.Path.{subst}
use native.Mathlib.Nat.{add-zero}
use redis_watcher.Base.Tests.{Bool-cases, Option-cases}
use redis_watcher.Go.Int.{ℤ}
use redis_watcher.Alert.Retry.Endings.{
  tally, Fails, Delivery, IsDelivered, IsExhausted, IsAborted, Ends,
}
use redis_watcher.Alert.Retry.{
  SendError, retry_reporter, RetryPolicy, World, next_backoff, round, send_loop, send_one,
}

module _ (p : RetryPolicy) (w : World) (full : p.reporter ≡ retry_reporter) where
  IsDelivered-round :
      (left a : ℕ) (b : ℤ) (rest : Delivery)
      → w.outcome a ≡ none
      → IsDelivered w a 0 (round p w left a b rest)
  unfolding round tally
  IsDelivered-round left a b rest h = (h, ground arith, ground arith)

  IsExhausted-round :
      (a : ℕ) (b : ℤ) (rest : Delivery) (e : SendError)
      → w.outcome a ≡ some e
      → IsExhausted w a 0 (round p w 0 a b rest)
  unfolding round tally
  IsExhausted-round a b rest e h = (e, h, ground arith, ground arith)

  IsAborted-round :
      (left a : ℕ) (b : ℤ) (rest : Delivery) (e : SendError)
      → w.outcome a ≡ some e
      → w.wakes a ≡ false
      → IsAborted w a 0 (round p w (suc left) a b rest)
  unfolding round tally
  IsAborted-round left a b rest e h k = (e, h, k, ground arith, ground arith)

  -- A failed round and its wait, in front of the rest.
  retried :
      (left a : ℕ) (b : ℤ) (rest : Delivery) (e : SendError)
      → w.outcome a ≡ some e
      → w.wakes a ≡ true
      → let r = round p w (suc left) a b rest in
        let t = tally rest.0 in
        (r.1 ≡ rest.1)
        × (tally r.0 ≡ record t {
          sends = 1 + t.sends;
          errors = 1 + t.errors;
          sleeps = 1 + t.sleeps;
          retries = 1 + t.retries;
        })
  unfolding round tally
  retried left a b rest e h k = (ground arith, ground arith)

  -- The rest's ending, seen from one round earlier.
  Ends-retried :
      (left a : ℕ) (b : ℤ) (rest : Delivery) (e : SendError)
      → w.outcome a ≡ some e
      → w.wakes a ≡ true
      → Ends w left (a + 1) rest
      → Ends w (suc left) a (round p w (suc left) a b rest)
  Ends-retried left a b rest e h k (n, last, at, le, fails, verdict) =
      let (same, tallied) = retried left a b rest e h k in
      (
        suc n,
        last,
        omega (arith, at),
        omega (arith, le),
        ((e, h), k, fails),
        elim verdict [
          | inl (o, r, t) ↦ inl (o, same ∙ r, tallied ∙ rw t (ground arith))
          | inr v ↦ inr (elim v [
            | inl ((e', o, r, t), last_one) ↦
                inl ((e', o, same ∙ r, tallied ∙ rw t (ground arith)), ap suc last_one)
            | inr ((e', o, cut, r, t), more) ↦
                inr ((e', o, cut, same ∙ r, tallied ∙ rw t (ground arith)), omega (arith, more))
          ])
        ],
      )

  send_loop-Ends : (left a : ℕ) (b : ℤ) → Ends w left a (send_loop p w (suc left) a b)
  unfolding send_loop
  send_loop-Ends zero a b = elim (Option-cases (w.outcome a)) [
    | inl works ↦ (0, a, omega arith, omega arith, tt, inl (IsDelivered-round 0 a b _ works))
    | inr (e, h) ↦
        (0, a, omega arith, omega arith, tt, inr (inl (IsExhausted-round a b _ e h, refl)))
  ]
  send_loop-Ends (suc left) a b =
      let b' = next_backoff b p.max_backoff in
      let rest = send_loop p w (suc left) (a + 1) b' in
      elim (Option-cases (w.outcome a)) [
        | inl works ↦
            (0, a, omega arith, omega arith, tt, inl (IsDelivered-round (suc left) a b rest works))
        | inr (e, h) ↦ elim (Bool-cases (w.wakes a)) [
          | inl woke ↦ Ends-retried left a b rest e h woke (send_loop-Ends left (a + 1) b')
          | inr cut ↦ (
            0,
            a,
            omega arith,
            omega arith,
            tt,
            inr (inr (IsAborted-round left a b rest e h cut, omega arith)),
          )
        ]
      ]

module _ (p : RetryPolicy) (w : World) (full : p.reporter ≡ retry_reporter) where
  send_loop_works :
      (left a n : ℕ) (b : ℤ)
      → n ≤ left
      → Fails w a n
      → w.outcome (a + n) ≡ none
      → (send_loop p w (suc left) a b).1 ≡ none
  unfolding send_loop
  send_loop_works left a zero b le f h =
      (IsDelivered-round p w full left a b _ (rw add-zero at h)).1
  send_loop_works zero a (suc n) b le f h = absurd (omega arith)
  send_loop_works (suc left) a (suc n) b le (failed, woke, f) h =
      let b' = next_backoff b p.max_backoff in
      let at : a + 1 + n ≡ a + suc n = omega arith in
      (retried p w full left a b _ failed.0 failed.1 woke).0
      ∙ send_loop_works left (a + 1) n b' (omega (arith, le)) f (rw at h)

-- Every delivery ends in one of three ways, after `n` attempts that failed and waits that ran their
-- time: an attempt works, and then the call returns no error, one alert is counted as sent, each
-- failure and each retry once, the channel is marked healthy and Sentry hears nothing; or the last
-- attempt allowed fails, and the call returns its error, the channel is marked as failing and
-- Sentry gets one report; or a wait is cut off, and the call returns that, with the same marks. The
-- number of attempts never exceeds the limit, which is at least 1.
pub send_one_cases :
    (p : RetryPolicy) (w : World) (left : ℕ)
    → p.reporter ≡ retry_reporter
    → p.retry_max ≡ suc left
    → Ends w left 1 (send_one p w)
unfolding send_one
send_one_cases p w left full limit =
    subst (λ k. Ends w left 1 (send_loop p w k 1 p.initial_backoff)) (sym limit)
      (send_loop-Ends p w full left 1 p.initial_backoff)

-- The call succeeds exactly when some attempt within the limit works after failed ones whose waits
-- all ran their time.
pub send_one_iff :
    (p : RetryPolicy) (w : World) (left : ℕ)
    → p.reporter ≡ retry_reporter
    → p.retry_max ≡ suc left
    → ((send_one p w).1 ≡ none) ↔ ((n : ℕ) × (n ≤ left) × Fails w 1 n × (w.outcome (1 + n) ≡ none))
send_one_iff p w left full limit = (
  λ h.
      let (n, last, at, le, fails, verdict) = send_one_cases p w left full limit in
      (
        n,
        le,
        fails,
        elim verdict [
          | inl (o, r, t) ↦ rw at at o
          | inr v ↦ elim v [ inl ((e, o, r, t), _) ↦ cc | inr ((e, o, cut, r, t), _) ↦ cc ]
        ],
      ),
  λ h.
      unfold send_one in
      subst (λ k. (send_loop p w k 1 p.initial_backoff).1 ≡ none) (sym limit)
        (send_loop_works p w full left 1 h.0 p.initial_backoff h.1 h.2 h.3),
)
