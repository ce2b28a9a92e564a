-- ===== src/Alert/Retry/Endings.antt =====
-- What the metrics and Sentry are told of a delivery, summed up, and the ways in which it can end.
use redis_watcher.Base.{
  ℕ, suc, zero, ◌+◌, ◌≤◌, ◌<◌, Bool, true, false, List, [], ◌∷◌, Option, none, some, ◌≡◌, ◌⊎◌,
}
use redis_watcher.Alert.Retry.{
  SendError, retry_aborted, Effect, send, observe_send, alert_sent, alert_error, alert_retry, sleep,
  channel_failing, finish_span, capture, World,
}

-- What a list of effects comes to.
pub record Tally : Type 0 where
  pub sends : ℕ
  pub sent : ℕ
  pub errors : ℕ
  pub retries : ℕ
  pub sleeps : ℕ
  pub captures : ℕ
  pub failing : Option Bool

abbrev keep : Option Bool → Bool → Option Bool
keep none b = some b
keep (some b') b = some b'

unfoldable pub tally : List Effect → Tally
tally [] = record {
  sends = 0;
  sent = 0;
  errors = 0;
  retries = 0;
  sleeps = 0;
  captures = 0;
  failing = none;
}
tally (send _ ∷ es) = let t = tally es in record t { sends = 1 + t.sends }
tally (observe_send ∷ es) = tally es
tally (alert_sent ∷ es) = let t = tally es in record t { sent = 1 + t.sent }
tally (alert_error _ ∷ es) = let t = tally es in record t { errors = 1 + t.errors }
tally (alert_retry ∷ es) = let t = tally es in record t { retries = 1 + t.retries }
tally (sleep _ ∷ es) = let t = tally es in record t { sleeps = 1 + t.sleeps }
tally (channel_failing b ∷ es) = let t = tally es in record t { failing = keep t.failing b }
tally (finish_span _ ∷ es) = tally es
tally (capture _ _ ∷ es) = let t = tally es in record t { captures = 1 + t.captures }

-- The attempts from `a` on fail, `n` of them, and each wait behind them ends by its timer.
abbrev pub Fails : World → ℕ → ℕ → Type 0
Fails w a zero = Unit {0}
Fails w a (suc n) =
    ((e : SendError) × (w.outcome a ≡ some e)) × (w.wakes a ≡ true) × Fails w (a + 1) n

abbrev pub Delivery : Type 0
Delivery = List Effect × Option SendError

-- The attempt `last`, after `n` failed ones, is delivered.
abbrev pub IsDelivered : World → ℕ → ℕ → Delivery → Type 0
IsDelivered w last n r =
    (w.outcome last ≡ none)
    × (r.1 ≡ none)
    × (tally r.0 ≡ record {
      sends = n + 1;
      sent = 1;
      errors = n;
      retries = n;
      sleeps = n;
      captures = 0;
      failing = some false;
    })

-- It fails too, and is the last one allowed.
abbrev pub IsExhausted : World → ℕ → ℕ → Delivery → Type 0
IsExhausted w last n r =
    (e : SendError) × (w.outcome last ≡ some e)
    × (r.1 ≡ some e)
    × (tally r.0 ≡ record {
      sends = n + 1;
      sent = 0;
      errors = n + 1;
      retries = n;
      sleeps = n;
      captures = 1;
      failing = some true;
    })

-- It fails, and the wait behind it is cut off.
abbrev pub IsAborted : World → ℕ → ℕ → Delivery → Type 0
IsAborted w last n r =
    (e : SendError) × (w.outcome last ≡ some e)
    × (w.wakes last ≡ false)
    × (r.1 ≡ some retry_aborted)
    × (tally r.0 ≡ record {
      sends = n + 1;
      sent = 0;
      errors = n + 1;
      retries = n;
      sleeps = n + 1;
      captures = 1;
      failing = some true;
    })

-- `left` more attempts are allowed behind attempt `a`.
abbrev pub Ends : World → ℕ → ℕ → Delivery → Type 0
Ends w left a r =
    (n : ℕ) × (last : ℕ) × (last ≡ a + n)
    × (n ≤ left)
    × Fails w a n
    × (IsDelivered w last n r
        ⊎ (IsExhausted w last n r × (n ≡ left))
        ⊎ (IsAborted w last n r × (n < left)))
