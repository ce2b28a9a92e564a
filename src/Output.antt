-- ===== src/Output.antt =====
-- internal/output/output.go: the consumer in front of a sink, and the manager. What a write of the
-- sink returns is given here; Sinks and Network have the sinks themselves.
pub mod Queue
pub mod Failing
pub mod Drain
pub mod Encode
pub mod Network
pub mod Sinks
pub mod Delivery
mod Examples
use redis_watcher.Base.{
  ℕ, suc, ◌+◌, ◌%◌, ◌^◌, Bool, true, false, List, [], ◌∷◌, ◌++◌, Option, none, some,
}
use redis_watcher.Base.Bytes.{Bytes}
use redis_watcher.Base.Lists.{length}
use redis_watcher.Base.Tests.{ltb, if◌then◌else◌}
use redis_watcher.Event.{Event}

pub record Consumer : Type 0 where
  pub queue : List Event
  pub capacity : ℕ
  pub drop : Bool
  pub dropped : ℕ
  pub written : ℕ
  pub errors : ℕ
  pub failing : Bool

-- The two stages that a report names.
pub data Stage : Type 0 where
  at_write at_shutdown : Stage

-- The calls of the metrics sink, and the reports to Sentry: the stage, the error, the command.
pub data Effect : Type 0 where
  observe_output_write : Effect
  incr_output_written : Effect
  incr_output_dropped : Effect
  incr_output_error : Effect
  set_output_failing : Bool → Effect
  report : Stage → Bytes → Bytes → Effect

unfoldable pub new_consumer : ℕ → Bool → Consumer
new_consumer buffer drop_on_full = record {
  queue = [];
  capacity = buffer;
  drop = drop_on_full;
  dropped = 0;
  written = 0;
  errors = 0;
  failing = false;
}

-- `Add(1)` on an `atomic.Uint64`.
abbrev pub add_one : ℕ → ℕ
add_one n = (n + 1) % 2 ^ 64

-- `Submit`; `none` where the send on a full queue blocks.
unfoldable pub submit : Event → Consumer → Option (Consumer × List Effect)
submit ev c =
    if ltb (length c.queue) c.capacity
    then some (record c { queue = c.queue ++ ev ∷ [] }, [])
    else if c.drop
    then some (record c { dropped = add_one c.dropped }, incr_output_dropped ∷ [])
    else none

-- What `writeOne` and the drain do around `Write`, which returned an error or none.
unfoldable pub write_one : Stage → Event → Option Bytes → Consumer → Consumer × List Effect
write_one stage ev none c = (
  record c { written = add_one c.written; failing = false },
  observe_output_write
      ∷ incr_output_written
      ∷ (if c.failing then set_output_failing false ∷ [] else []),
)
write_one stage ev (some e) c = (
  record c { errors = add_one c.errors; failing = true },
  observe_output_write
      ∷ incr_output_error
      ∷ (if c.failing then [] else set_output_failing true ∷ report stage e ev.command ∷ []),
)

-- A turn of `Run`: the oldest event is written.
unfoldable pub run_one : Option Bytes → Consumer → Option (Event × Consumer × List Effect)
run_one outcome c = elim c.queue [
  | [] ↦ none
  | ev ∷ rest ↦
      let (c', es) = write_one at_write ev outcome (record c { queue = rest }) in some (ev, c', es)
]

-- The loop of `drainAfterShutdown` on the queue that is left, from its round `i`: whether the
-- deadline is taken in a round, and what the write of a round returns, are given. The result has
-- the events that were written or tried.
unfoldable pub drain :
    (ℕ → Bool)
    → (ℕ → Option Bytes)
    → ℕ
    → List Event
    → Consumer
    → Consumer × List Event × List Effect
unfolding write_one
drain expires outcome i [] c = (record c { queue = [] }, [], [])
drain expires outcome i (ev ∷ q) c = elim (expires i) [
  | true ↦ (record c { queue = ev ∷ q }, [], [])
  | false ↦ elim (outcome i) [
    | some e ↦
        let (c', es) = write_one at_shutdown ev (some e) c in (record c' { queue = q }, ev ∷ [], es)
    | none ↦
        let (c', es) = write_one at_shutdown ev none c in
        let (c'', evs, es') = drain expires outcome (suc i) q c' in (c'', ev ∷ evs, es ++ es')
  ]
]

unfoldable pub drain_after_shutdown :
    (ℕ → Bool) → (ℕ → Option Bytes) → Consumer → Consumer × List Event × List Effect
unfolding drain
drain_after_shutdown expires outcome c = drain expires outcome 0 c.queue c

-- `Manager.Dispatch`; `none` where one of the consumers blocks.
unfoldable pub dispatch : Event → List Consumer → Option (List Consumer × List (List Effect))
dispatch ev [] = some ([], [])
dispatch ev (c ∷ cs) = elim (submit ev c) [
  | none ↦ none
  | some (c', es) ↦ elim (dispatch ev cs) [
    | none ↦ none
    | some (cs', ess) ↦ some (c' ∷ cs', es ∷ ess)
  ]
]
