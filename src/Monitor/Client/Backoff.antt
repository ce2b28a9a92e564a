-- ===== src/Monitor/Client/Backoff.antt =====
-- The delays between connections.
use redis_watcher.Base.{
  ℕ, suc, ◌*◌, ◌^◌, ◌≤◌, ◌<◌, true, false, List, [], ◌∷◌, ◌++◌, some, ◌≡◌, refl, arith, ap, ◌∙◌,
}
use Prim.Native.Nat.{min}
use redis_watcher.Base.Lists.{length, All}
use redis_watcher.Base.Tests.{if◌then◌else◌}
use redis_watcher.Alert.Retry.Backoff.{schedule, min-double}
use redis_watcher.Go.Int.{ℤ, pos, double}
use redis_watcher.Monitor.Client.{
  Options, Loop, Round, failed, add_one, start_loop, grow, before_connect, after_connect, run_round,
  run_delays,
}

-- A connection that fails while the gate is active, and a delay that runs its time.
abbrev pub IsFailure : Round → Type 0
IsFailure r =
    (r.active_before ≡ true) × (r.outcome ≡ failed) × (r.active_after ≡ true) × (r.wakes ≡ true)

-- The loop behind such a round.
abbrev next_loop : Options → Loop → Loop
next_loop o l = record {
  backoff = grow o l.backoff;
  first = false;
  reconnections = if l.first then l.reconnections else add_one l.reconnections;
}

run_round-failure :
    (o : Options) (l : Loop) (r : Round)
    → IsFailure r
    → run_round o l r ≡ (some (next_loop o l), l.backoff ∷ [])
unfolding run_round before_connect after_connect
run_round-failure o l r h = ground arith

run_delays-step :
    (o : Options) (l l' : Loop) (r : Round) (rs : List Round) (ds : List ℤ)
    → run_round o l r ≡ (some l', ds)
    → run_delays o l (r ∷ rs) ≡ ds ++ run_delays o l' rs
unfolding run_delays
run_delays-step o l l' r rs ds h = rw (h, run_delays) (ap (λ p. p.1 ++ run_delays o l' rs) h)

module _ (o : Options) (first cap : ℕ) (low : o.backoff_min ≡ pos first)
    (high : o.backoff_max ≡ pos cap) (small : cap < 2 ^ 62) where
  grow-capped : (b : ℕ) → b ≤ cap → grow o (pos b) ≡ pos (min (2 * b) cap)
  unfolding grow double
  grow-capped b h = ground arith

  grown : (i : ℕ) → grow o (pos (min (first * 2 ^ i) cap)) ≡ pos (min (first * 2 ^ suc i) cap)
  grown i = grow-capped (min (first * 2 ^ i) cap) (omega arith) ∙ ap pos (min-double first cap i)

  run_delays-failures :
      (rs : List Round) (l : Loop) (i : ℕ)
      → All IsFailure rs
      → l.backoff ≡ pos (min (first * 2 ^ i) cap)
      → run_delays o l rs ≡ schedule first cap i (length rs)
  run_delays-failures [] l i h b = unfold run_delays schedule in refl
  run_delays-failures (r ∷ rs) l i h b =
      let ih = run_delays-failures rs (next_loop o l) (suc i) h.1 (ap (grow o) b ∙ grown i) in
      run_delays-step o l (next_loop o l) r rs (l.backoff ∷ []) (run_round-failure o l r h.0)
      ∙ rw ih (rw b (unfold schedule in refl))

  -- While connections fail one after the other, the delays between them double from the least one
  -- and stay at the greatest once they have reached it.
  pub run_delays-schedule :
      (rs : List Round)
      → first ≤ cap
      → All IsFailure rs
      → run_delays o (start_loop o) rs ≡ schedule first cap 0 (length rs)
  run_delays-schedule rs le h =
      run_delays-failures rs (start_loop o) 0 h
        (unfold start_loop in (low ∙ ap pos (omega (arith, le))))
