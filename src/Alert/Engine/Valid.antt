-- ===== src/Alert/Engine/Valid.antt =====
-- What `New` establishes, and what every operation keeps.
use mathlib.Core.Path.{subst}
use redis_watcher.Base.{
  ℕ, suc, zero, ◌≤◌, ◌<◌, Bool, true, false, List, [], ◌∷◌, Option, some, ◌≡◌, arith,
}
use redis_watcher.Base.Bytes.{Bytes}
use redis_watcher.Base.Lists.{length, length-append}
use redis_watcher.Base.Results.{Result, ok, bind-eq-ok}
use redis_watcher.Alert.Retry.{World}
use redis_watcher.Alert.Engine.{
  Engine, Options, Action, submit, handle, run_one, new, compile_all, default_count, clamp_initial,
}
use redis_watcher.Event.{Event}
use redis_watcher.Go.Int.{gt_ℤ, ℤ, pos, negsuc}
use redis_watcher.Go.Text.{Unicode}

-- At least one attempt; an initial backoff that is not negative, and not above a cap that is set;
-- room for one event, and no more events than room.
pub record IsValid (e : Engine) : Type 0 where
  pub tries : 0 < e.policy.retry_max
  pub initial_nonneg : gt_ℤ (pos 0) e.policy.initial_backoff ≡ false
  pub initial_capped :
      gt_ℤ e.policy.max_backoff (pos 0) ≡ true
      → gt_ℤ e.policy.initial_backoff e.policy.max_backoff ≡ false
  pub roomy : 0 < e.capacity
  pub fits : length e.queue ≤ e.capacity

default_count-pos : (v : ℤ) (d : ℕ) → 0 < d → 0 < default_count v d
default_count-pos (pos zero) d h = h
default_count-pos (pos (suc n)) d h = omega arith
default_count-pos (negsuc n) d h = h

clamp_initial-bounds :
    (initial cap : ℤ)
    → (gt_ℤ (pos 0) (clamp_initial initial cap) ≡ false)
      × (gt_ℤ cap (pos 0) ≡ true → gt_ℤ (clamp_initial initial cap) cap ≡ false)
unfolding clamp_initial
clamp_initial-bounds initial cap = (ground arith, ground arith)

ok-IsValid : (a e : Engine) → ◌≡◌ {A = Result Bytes Engine} (ok a) (ok e) → IsValid a → IsValid e
ok-IsValid a e h v = let same : a ≡ e = cc in subst IsValid same v

-- Whatever the options, an engine that `New` builds is valid and empty.
pub new-IsValid :
    (u : Unicode) (compile : Bytes → Option (Bytes → Bool)) (o : Options) (e : Engine)
    → new u compile o ≡ ok e
    → IsValid e
unfolding new
new-IsValid u compile o e h =
    let (ps, compiled, built) = bind-eq-ok (compile_all compile o.patterns) _ h in
    let (low, capped) = clamp_initial-bounds o.retry_initial_backoff o.retry_max_backoff in
    ok-IsValid _ e built (record {
      tries = default_count-pos o.retry_max_attempts 1 (omega arith);
      initial_nonneg = low;
      initial_capped = capped;
      roomy = default_count-pos o.buffer_size 1024 (omega arith);
      fits = omega arith;
    })

-- `Submit` keeps an engine valid: an event is only ever put into a queue that has room.
pub submit-IsValid :
    (ev : Event) (e e' : Engine) (told : Bool)
    → submit ev e ≡ some (e', told)
    → IsValid e
    → IsValid e'
unfolding submit
submit-IsValid ev e e' told h v = ground (arith, length-append e.queue (ev ∷ []))

handle-IsValid :
    (e : Engine) (world : Bytes → World) (now : ℕ) (ev : Event)
    → IsValid e
    → IsValid (handle e world now ev).0
unfolding handle
handle-IsValid e world now ev v = ground arith

-- A turn of `Run` keeps an engine valid.
pub run_one-IsValid :
    (e e' : Engine) (world : Bytes → World) (now : ℕ) (acts : List Action)
    → run_one e world now ≡ some (e', acts)
    → IsValid e
    → IsValid e'
unfolding run_one handle
run_one-IsValid e e' world now acts h v = ground arith
