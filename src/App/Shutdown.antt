-- ===== src/App/Shutdown.antt =====
-- internal/app/app.go: the goroutines of `Run`, from their start to the return of `Run`, with the
-- loops that say when each may end. `Submit` of internal/output and internal/alert does not look at
-- the context: where drop_on_full is off, the dispatcher may block in it on a full queue.
use redis_watcher.Base.{
  ℕ, zero, suc, ◌+◌, ◌≤◌, Bool, true, false, not, ◌&&◌, ◌||◌, List, [], ◌∷◌, ◌++◌, Option, none,
  some, ◌≡◌, arith,
}
use redis_watcher.Base.Lists.{length}
use redis_watcher.Base.Tests.{◌==◌, if◌then◌else◌}

-- The goroutines; the manager of the outputs starts one for each consumer and waits for them.
pub data Task : Type 0 where
  role_checker metrics_server alert_engine dispatcher monitor : Task
  consumer : ℕ → Task

abbrev place : Task → ℕ
place role_checker = 0
place metrics_server = 1
place alert_engine = 2
place dispatcher = 3
place monitor = 4
place (consumer i) = 5 + i

abbrev pub same : Task → Task → Bool
same a b = place a == place b

abbrev pub runs : Task → List Task → Bool
runs t [] = false
runs t (x ∷ xs) = same t x || runs t xs

-- Which of the optional parts there are, how many consumers, and the setting drop_on_full.
pub record Parts : Type 0 where
  pub has_checker : Bool
  pub serves_metrics : Bool
  pub outputs : ℕ
  pub has_alerts : Bool
  pub drops : Bool

abbrev only : Bool → Task → List Task
only b t = if b then t ∷ [] else []

abbrev consumers : ℕ → List Task
consumers zero = []
consumers (suc n) = consumer n ∷ consumers n

-- The goroutines that are started.
unfoldable pub started : Parts → List Task
started p =
    only p.has_checker role_checker
    ++ (only p.serves_metrics metrics_server
        ++ (consumers p.outputs ++ (only p.has_alerts alert_engine ++ dispatcher ∷ monitor ∷ [])))

-- Whether the context is cancelled, the goroutines that run, the part in whose `Submit` the
-- dispatcher is blocked, and whether `Run` has returned.
pub data State : Type 0 where
  state : Bool → List Task → Option Task → Bool → State

-- A goroutine is in the `select` of its loop.
abbrev pub at_select : Task → Option Task → Bool
at_select t none = true
at_select t (some _) = not (same dispatcher t)

-- The parts that the dispatcher submits to.
abbrev pub has_queue : Task → Bool
has_queue alert_engine = true
has_queue (consumer i) = true
has_queue _ = false

pub data Step (p : Parts) : State → State → Type 0 where
  -- The caller's context or the first signal.
  cancelled :
      (b : Bool) (ts : List Task) (w : Option Task)
      → Step p (state b ts w false) (state true ts w false)
  -- `case <-ctx.Done()` of a loop.
  done :
      (before : List Task) (t : Task) (after : List Task) (w : Option Task)
      → at_select t w ≡ true
      → Step p (state true (before ++ t ∷ after) w false) (state true (before ++ after) w false)
  -- `ListenAndServe` of the metrics server fails.
  not_listening :
      (b : Bool) (before after : List Task) (w : Option Task)
      → Step p
          (state b (before ++ metrics_server ∷ after) w false)
          (state b (before ++ after) w false)
  -- `Run` of the monitor client returns, on an error that is taken for the context's, and its
  -- goroutine calls `cancel`.
  monitor_ended :
      (b : Bool) (before after : List Task) (w : Option Task)
      → Step p (state b (before ++ monitor ∷ after) w false) (state true (before ++ after) w false)
  -- `Submit` finds the queue of a part full, whether that part still runs or not.
  blocks :
      (b : Bool) (ts : List Task) (t : Task)
      → p.drops ≡ false
      → runs dispatcher ts ≡ true
      → (has_queue t && runs t (started p)) ≡ true
      → Step p (state b ts none false) (state b ts (some t) false)
  -- A part takes an event from its queue, in its loop or its drain, which lets the dispatcher go on.
  taken :
      (b : Bool) (ts : List Task) (t : Task)
      → runs t ts ≡ true
      → Step p (state b ts (some t) false) (state b ts none false)
  -- `<-runCtx.Done()`, `wg.Wait()` and the return.
  returned : (w : Option Task) → Step p (state true [] w false) (state true [] w true)

pub data Reach (p : Parts) : State → Type 0 where
  start : Reach p (state false (started p) none false)
  step : {s s' : State} → Reach p s → Step p s s' → Reach p s'

-- Steps one after the other.
pub data Steps (p : Parts) : State → State → ℕ → Type 0 where
  here : {s : State} → Steps p s s 0
  next : {s s' s'' : State} {n : ℕ} → Step p s s' → Steps p s' s'' n → Steps p s s'' (suc n)

-- The dispatcher is blocked on a part that has ended.
abbrev pub stuck : List Task → Option Task → Bool
stuck ts none = false
stuck ts (some t) = not (runs t ts)

-- While the dispatcher is blocked it runs, and the setting allows it.
abbrev Blocked : Parts → List Task → Option Task → Type 0
Blocked p ts none = Unit {0}
Blocked p ts (some t) = (runs dispatcher ts ≡ true) × (p.drops ≡ false)

-- While the context lives the monitor runs; when `Run` has returned, the context is cancelled,
-- nothing runs and nothing is blocked.
abbrev Safe : Parts → State → Type 0
Safe p (state b ts w r) =
    ((b || runs monitor ts) ≡ true)
    × Blocked p ts w
    × (r ≡ true → (b ≡ true) × (ts ≡ []) × (w ≡ none))

or_true : (b : Bool) → (b || true) ≡ true
or_true b = ground arith

-- A blocked dispatcher whose part has ended.
abbrev Hangs : State → Type 0
Hangs (state b ts (some t) false) = (runs dispatcher ts ≡ true) × (runs t ts ≡ false)
Hangs _ = ⊥

-- Not more steps than one for each goroutine and three others.
abbrev pub Returns : Parts → Bool → List Task → Option Task → Bool → Type 0
Returns p b ts w r =
    (n : ℕ) × (n ≤ 3 + length ts) × Steps p (state b ts w r) (state true [] none true) n
