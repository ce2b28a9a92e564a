-- ===== src/Monitor/Client/Session/Ends.antt =====
-- When the reconnecting loop of internal/monitor/client.go ends, by the errors of its connections.
use redis_watcher.Base.{Bool, true, false, none, ◌≡◌, ◌↔◌, inl, inr, refl, arith}
use redis_watcher.Base.Bytes.{Bytes}
use redis_watcher.Base.Tests.{Bool-cases}
use redis_watcher.Monitor.Client.{
  Options, Loop, Round, server_error, stream_ended, blocked, cancelled, failed, before_connect,
  after_connect, run_round,
}
use redis_watcher.Monitor.Client.Session.{
  SessionError, dial_failed, auth_not_sent, auth_failed, monitor_not_sent, monitor_rejected, ended,
  session_outcome,
}

-- A send does not wait for the context's end.
abbrev pub is_blocked : SessionError → Bool
is_blocked (ended (blocked ev)) = true
is_blocked _ = false

-- The dial failed with an error that is taken for the context's.
abbrev pub TakenForContext : (Bytes → Bool) → SessionError → Type 0
TakenForContext is_context e = (x : Bytes) × (e ≡ dial_failed x) × (is_context x ≡ true)

goes_on :
    (o : Options) (l : Loop) (r : Round)
    → r.outcome ≡ failed
    → r.wakes ≡ true
    → r.wait_cut ≡ false
    → (run_round o l r).0 ≡ none
    → ⊥
unfolding run_round before_connect after_connect
goes_on o l r h w cut k = ground arith

returns : (o : Options) (l : Loop) (r : Round) → r.outcome ≡ cancelled → (run_round o l r).0 ≡ none
unfolding run_round before_connect after_connect
returns o l r h = ground arith

module _ (is_context : Bytes → Bool) (o : Options) (l : Loop) (r : Round) (w : r.wakes ≡ true)
    (cut : r.wait_cut ≡ false) where
  -- As long as the context lives and no send is blocked, the client gives up, and does not connect
  -- again, exactly when a dial fails with an error that is taken for the context's, as package net's
  -- timeout is: neither the end of the stream, nor an error of the server, nor a refused AUTH or
  -- MONITOR ends it.
  pub run_round-session_outcome :
      (e : SessionError)
      → r.outcome ≡ session_outcome is_context false e
      → is_blocked e ≡ false
      → ((run_round o l r).0 ≡ none) ↔ TakenForContext is_context e
  unfolding session_outcome
  run_round-session_outcome (dial_failed x) h b = elim (Bool-cases (is_context x)) [
    | inl taken ↦ (λ k. (x, refl, taken), λ k. returns o l r (rw taken at h))
    | inr other ↦
        (λ k. absurd (goes_on o l r (rw other at h) w cut k), λ (y, same, taken). absurd cc)
  ]
  run_round-session_outcome (auth_not_sent x) h b =
      (λ k. absurd (goes_on o l r h w cut k), λ (y, same, taken). absurd cc)
  run_round-session_outcome (auth_failed x) h b =
      (λ k. absurd (goes_on o l r h w cut k), λ (y, same, taken). absurd cc)
  run_round-session_outcome (monitor_not_sent x) h b =
      (λ k. absurd (goes_on o l r h w cut k), λ (y, same, taken). absurd cc)
  run_round-session_outcome (monitor_rejected x) h b =
      (λ k. absurd (goes_on o l r h w cut k), λ (y, same, taken). absurd cc)
  run_round-session_outcome (ended (server_error x)) h b =
      (λ k. absurd (goes_on o l r h w cut k), λ (y, same, taken). absurd cc)
  run_round-session_outcome (ended (stream_ended x)) h b =
      (λ k. absurd (goes_on o l r h w cut k), λ (y, same, taken). absurd cc)
  run_round-session_outcome (ended (blocked x)) h b = absurd cc
