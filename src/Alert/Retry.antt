-- ===== src/Alert/Retry.antt =====
-- `sendOne`, `sleepWithContext` and `nextBackoff` of internal/alert/alert.go: the delivery of one
-- alert to one channel. What the world does is given for each attempt: the error that `Send`
-- returns, and whether the wait after it ends by the timer. What the engine does is the list of
-- its effects, in order.
pub mod Endings
pub mod Laws
pub mod Backoff
use redis_watcher.Base.{
  ℕ, suc, zero, ◌+◌, ◌-◌, ◌*◌, ◌^◌, Bool, true, false, ◌&&◌, List, [], ◌∷◌, ◌++◌, Option, none,
  some,
}
use redis_watcher.Base.Bytes.{Bytes}
use redis_watcher.Base.Tests.{ltb, leb, ◌==◌, if◌then◌else◌}
use redis_watcher.Go.Int.{ℤ, pos, negsuc, gt_ℤ, double}

-- What `Send` fails with, and the engine's own error when a wait is cut off.
pub data SendError : Type 0 where
  send_failed : Bytes → SendError
  retry_aborted : SendError

-- The three kinds of `Reporter` that the engine tells apart: nil, one with the three basic
-- methods, and one that is a `RetryReporter` too, as metrics.Registry is.
pub data Reporter : Type 0 where
  no_reporter basic_reporter retry_reporter : Reporter

abbrev pub has_reporter : Reporter → Bool
has_reporter no_reporter = false
has_reporter _ = true

abbrev pub is_retry_reporter : Reporter → Bool
is_retry_reporter retry_reporter = true
is_retry_reporter _ = false

pub data Effect : Type 0 where
  send : ℕ → Effect
  observe_send : Effect
  alert_sent : Effect
  alert_error : SendError → Effect
  alert_retry : Effect
  sleep : ℤ → Effect
  channel_failing : Bool → Effect
  finish_span : Option SendError → Effect
  capture : SendError → ℕ → Effect

-- The engine's settings for retries.
pub record RetryPolicy : Type 0 where
  pub retry_max : ℕ
  pub initial_backoff : ℤ
  pub max_backoff : ℤ
  pub reporter : Reporter

pub record World : Type 0 where
  pub outcome : ℕ → Option SendError
  pub wakes : ℕ → Bool

abbrev pub minute : ℕ
minute = 60_000_000_000

abbrev pub is_zero : ℤ → Bool
is_zero (pos zero) = true
is_zero _ = false

unfoldable pub next_backoff : ℤ → ℤ → ℤ
unfolding double
next_backoff cur max_backoff =
    let next = double cur in
    if gt_ℤ max_backoff (pos 0) && gt_ℤ next max_backoff
    then max_backoff
    else if is_zero max_backoff && gt_ℤ next (pos minute)
    then pos minute
    else next

-- The guards round the optional reporter.
abbrev pub report : Reporter → Effect → List Effect
report r e = if has_reporter r then e ∷ [] else []

abbrev pub record_retry : Reporter → Effect → List Effect
record_retry r e = if is_retry_reporter r then e ∷ [] else []

-- The end of a delivery that worked, and of one that did not.
unfoldable pub succeed : RetryPolicy → List Effect
succeed p =
    finish_span none
    ∷ (report p.reporter alert_sent ++ record_retry p.reporter (channel_failing false))

unfoldable pub give_up : RetryPolicy → ℕ → SendError → List Effect
give_up p attempts e =
    finish_span (some e)
    ∷ (record_retry p.reporter (channel_failing true) ++ capture e attempts ∷ [])

-- Puts effects in front of what comes later.
abbrev pub after : List Effect → List Effect × Option SendError → List Effect × Option SendError
after es r = (es ++ r.0, r.1)

-- One round of the loop, in front of the `rest` of it; `left` counts the rounds that may follow.
unfoldable pub round :
    RetryPolicy
    → World
    → ℕ
    → ℕ
    → ℤ
    → List Effect × Option SendError
    → List Effect × Option SendError
unfolding succeed give_up
round p w left attempt backoff rest =
    after (send attempt ∷ record_retry p.reporter observe_send) (elim (w.outcome attempt) [
      | none ↦ (succeed p, none)
      | some e ↦ after (report p.reporter (alert_error e)) (
          if left == 0
          then (give_up p attempt e, some e)
          else if w.wakes attempt
          then after (sleep backoff ∷ record_retry p.reporter alert_retry) rest
          else (sleep backoff ∷ give_up p attempt retry_aborted, some retry_aborted))
    ])

-- The loop, by the rounds left; `attempt` is the number of the round at hand. With no round at all
-- there is no error to capture, and the channel is still marked as failing.
unfoldable pub send_loop : RetryPolicy → World → ℕ → ℕ → ℤ → List Effect × Option SendError
send_loop p w zero attempt backoff =
    (finish_span none ∷ record_retry p.reporter (channel_failing true), none)
send_loop p w (suc left) attempt backoff =
    let rest = send_loop p w left (attempt + 1) (next_backoff backoff p.max_backoff) in
    round p w left attempt backoff rest

unfoldable pub send_one : RetryPolicy → World → List Effect × Option SendError
unfolding send_loop
send_one p w = send_loop p w p.retry_max 1 p.initial_backoff
