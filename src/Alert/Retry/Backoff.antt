-- ===== src/Alert/Retry/Backoff.antt =====
-- The waits between attempts: they double up to the cap.
use redis_watcher.Base.{
  ℕ, suc, zero, ◌+◌, ◌*◌, ◌^◌, ◌≤◌, ◌<◌, List, [], ◌∷◌, Option, ◌≡◌, ◌⊎◌, inl, inr, arith, ap, ◌∙◌,
  sym,
}
use Prim.Native.Nat.{min}
use mathlib.Core.Path.{subst}
use native.Mathlib.Nat.{pow-suc}
use redis_watcher.Base.Lists.{length}
use redis_watcher.Go.Int.{ℤ, pos}
use redis_watcher.Alert.Retry.{
  SendError, Effect, send, observe_send, alert_sent, alert_error, alert_retry, sleep,
  channel_failing, finish_span, capture, RetryPolicy, World, next_backoff, round, send_loop,
  send_one,
}

-- One step, for a cap that is set and for none, at lengths of time whose double fits an int64.
next_backoff-capped :
    (b m : ℕ) → 0 < m → m < 2 ^ 62 → b ≤ m → next_backoff (pos b) (pos m) ≡ pos (min (2 * b) m)
unfolding next_backoff
next_backoff-capped b m h k l = ground arith

-- The waits of a delivery, in order.
unfoldable pub waits : List Effect → List ℤ
waits [] = []
waits (send _ ∷ es) = waits es
waits (observe_send ∷ es) = waits es
waits (alert_sent ∷ es) = waits es
waits (alert_error _ ∷ es) = waits es
waits (alert_retry ∷ es) = waits es
waits (sleep d ∷ es) = d ∷ waits es
waits (channel_failing _ ∷ es) = waits es
waits (finish_span _ ∷ es) = waits es
waits (capture _ _ ∷ es) = waits es

-- `n` waits from the `i`-th on: the first one doubled `i` times, and no more than the cap.
unfoldable pub schedule : ℕ → ℕ → ℕ → ℕ → List ℤ
schedule first cap i zero = []
schedule first cap i (suc n) = pos (min (first * 2 ^ i) cap) ∷ schedule first cap (suc i) n

pub min-double :
    (first cap i : ℕ) → min (2 * min (first * 2 ^ i) cap) cap ≡ min (first * 2 ^ suc i) cap
min-double first cap i =
    let doubled : first * 2 ^ suc i ≡ 2 * (first * 2 ^ i) = rw pow-suc (grind arith) in
    omega (arith, doubled)

module _ (p : RetryPolicy) (w : World) where
  -- One round adds no wait, its own, or its own in front of the rest's.
  waits-round :
      (left a : ℕ) (b : ℤ) (rest : List Effect × Option SendError)
      → (waits (round p w left a b rest).0 ≡ [])
        ⊎ (waits (round p w left a b rest).0 ≡ b ∷ [])
        ⊎ (waits (round p w left a b rest).0 ≡ b ∷ waits rest.0)
  unfolding round waits
  waits-round left a b rest = ground arith

module _ (p : RetryPolicy) (w : World) (first cap : ℕ) (set : p.max_backoff ≡ pos cap)
    (some_cap : 0 < cap) (small : cap < 2 ^ 62) where
  next_backoff-schedule :
      (i : ℕ)
      → next_backoff (pos (min (first * 2 ^ i) cap)) p.max_backoff
        ≡ pos (min (first * 2 ^ suc i) cap)
  next_backoff-schedule i = rw set (
      next_backoff-capped (min (first * 2 ^ i) cap) cap some_cap small (omega arith)
      ∙ ap pos (min-double first cap i))

  waits-send_loop :
      (left a i : ℕ)
      → let r = send_loop p w left a (pos (min (first * 2 ^ i) cap)) in
        waits r.0 ≡ schedule first cap i (length (waits r.0))
  unfolding send_loop schedule
  waits-send_loop zero a i = unfold waits in ground arith
  waits-send_loop (suc left) a i =
      let b = pos (min (first * 2 ^ i) cap) in
      let rest = send_loop p w left (a + 1) (next_backoff b p.max_backoff) in
      elim (waits-round p w left a b rest) [
        | inl no_wait ↦ rw no_wait
        | inr more ↦ elim more [
          | inl one ↦ rw one
          | inr all ↦
              rw all
                (ap (◌∷◌ b) (rw (next_backoff-schedule i) (waits-send_loop left (a + 1) (suc i))))
        ]
      ]

-- With a cap that is set, the waits of a delivery are the first one, doubled with each failure and
-- never more than the cap.
pub waits-send_one :
    (p : RetryPolicy) (w : World) (first cap : ℕ)
    → p.initial_backoff ≡ pos first
    → p.max_backoff ≡ pos cap
    → first ≤ cap
    → 0 < cap
    → cap < 2 ^ 62
    → waits (send_one p w).0 ≡ schedule first cap 0 (length (waits (send_one p w).0))
unfolding send_one
waits-send_one p w first cap start set le some_cap small =
    let e : p.initial_backoff ≡ pos (min (first * 2 ^ 0) cap) = start ∙ ap pos (omega arith) in
    subst
      (λ b.
        waits (send_loop p w p.retry_max 1 b).0
        ≡ schedule first cap 0 (length (waits (send_loop p w p.retry_max 1 b).0)))
      (sym e) (waits-send_loop p w first cap set some_cap small p.retry_max 1 0)
