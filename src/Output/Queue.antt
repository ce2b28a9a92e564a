-- ===== src/Output/Queue.antt =====
-- No event is lost, doubled or moved: what a consumer does with the events that are submitted.
use redis_watcher.Base.{
  ℕ, ◌+◌, ◌%◌, ◌^◌, Bool, true, List, [], ◌∷◌, ◌++◌, Option, none, some, append_assoc, ◌≡◌, ◌⊎◌,
  inl, inr, refl, arith, ◌∙◌, sym,
}
use redis_watcher.Base.Bytes.{Bytes}
use redis_watcher.Base.Lists.{length, length-append, All}
use redis_watcher.Base.Tests.{Option-cases}
use redis_watcher.Event.{Event}
use redis_watcher.Output.{Consumer, Effect, new_consumer, submit, write_one, run_one, dispatch}

-- The runs of a consumer: any interleaving of `Submit` and turns of `Run`, whatever the writes
-- return. The indices are the events submitted, those that were given to the sink, and the effects.
pub data Run (buffer : ℕ) (drop_on_full : Bool)
    : List Event → List Event → List Effect → Consumer → Type 0 where
  started : Run buffer drop_on_full [] [] [] (new_consumer buffer drop_on_full)
  submitted :
      {offered tried : List Event} {es es' : List Effect} {c c' : Consumer} (ev : Event)
      → Run buffer drop_on_full offered tried es c
      → submit ev c ≡ some (c', es')
      → Run buffer drop_on_full (offered ++ ev ∷ []) tried (es ++ es') c'
  served :
      {offered tried : List Event} {es es' : List Effect} {c c' : Consumer} (ev : Event)
      (outcome : Option Bytes)
      → Run buffer drop_on_full offered tried es c
      → run_one outcome c ≡ some (ev, c', es')
      → Run buffer drop_on_full offered (tried ++ ev ∷ []) (es ++ es') c'

-- A list that results from another one by leaving elements out.
pub data Subsequence : List Event → List Event → Type 0 where
  empty : Subsequence [] []
  keep :
      {xs ys : List Event} (x : Event)
      → Subsequence xs ys
      → Subsequence (xs ++ x ∷ []) (ys ++ x ∷ [])
  skip : {xs ys : List Event} (x : Event) → Subsequence xs ys → Subsequence xs (ys ++ x ∷ [])

submit_cases :
    (ev : Event) (c c' : Consumer) (es : List Effect)
    → submit ev c ≡ some (c', es)
    → (c'.queue ≡ c.queue ++ ev ∷ []) ⊎ (c'.queue ≡ c.queue)
unfolding submit
submit_cases ev c c' es h = ground arith

run_one-queue :
    (outcome : Option Bytes) (c c' : Consumer) (ev : Event) (es : List Effect)
    → run_one outcome c ≡ some (ev, c', es)
    → c.queue ≡ ev ∷ c'.queue
unfolding run_one write_one
run_one-queue outcome c c' ev es h = ground arith

shift : (a : List Event) (x : Event) (b : List Event) → (a ++ x ∷ []) ++ b ≡ a ++ x ∷ b
shift a x b = append_assoc a (x ∷ []) b

-- The four places in which an event can be.
abbrev pub total : Consumer → ℕ
total c = c.dropped + c.written + c.errors + length c.queue

submit-total :
    (ev : Event) (c c' : Consumer) (es : List Effect)
    → submit ev c ≡ some (c', es)
    → total c' % 2 ^ 64 ≡ (total c + 1) % 2 ^ 64
unfolding submit
submit-total ev c c' es h = ground (arith, length-append c.queue (ev ∷ []))

run_one-total :
    (outcome : Option Bytes) (c c' : Consumer) (ev : Event) (es : List Effect)
    → run_one outcome c ≡ some (ev, c', es)
    → total c' % 2 ^ 64 ≡ total c % 2 ^ 64
unfolding run_one write_one
run_one-total outcome c c' ev es h = ground arith

module _ (buffer : ℕ) (drop_on_full : Bool) where
  -- Whatever the order of submissions and writes, the events that were given to the sink, and then
  -- those that wait, are the submitted ones in their order, with some possibly left out.
  pub Run-Subsequence :
      (offered tried : List Event) (es : List Effect) (c : Consumer)
      → Run buffer drop_on_full offered tried es c
      → Subsequence (tried ++ c.queue) offered
  unfolding new_consumer
  Run-Subsequence _ _ _ _ started = empty
  Run-Subsequence _ _ _ c' (submitted {offered} {tried} {es} {es'} {c} ev r h) =
      let ih = Run-Subsequence offered tried es c r in
      elim (submit_cases ev c c' es' h) [
        | inl more ↦ rw (more, sym (append_assoc tried c.queue (ev ∷ []))) (keep ev ih)
        | inr same ↦ rw same (skip ev ih)
      ]
  Run-Subsequence _ _ _ c' (served {offered} {tried} {es} {es'} {c} ev outcome r h) =
      let ih = Run-Subsequence offered tried es c r in
      rw (shift tried ev c'.queue) (rw (run_one-queue outcome c c' ev es' h) at ih)

  -- Every submitted event is counted once: as dropped, written or failed, or it waits. The counters
  -- wrap around at 2^64.
  pub Run-counts :
      (offered tried : List Event) (es : List Effect) (c : Consumer)
      → Run buffer drop_on_full offered tried es c
      → length offered % 2 ^ 64 ≡ total c % 2 ^ 64
  unfolding new_consumer
  Run-counts _ _ _ _ started = refl
  Run-counts _ _ _ c' (submitted {offered} {tried} {es} {es'} {c} ev r h) = omega (
    arith,
    Run-counts offered tried es c r,
    submit-total ev c c' es' h,
    length-append offered (ev ∷ []),
  )
  Run-counts _ _ _ c' (served {offered} {tried} {es} {es'} {c} ev outcome r h) =
      Run-counts offered tried es c r ∙ sym (run_one-total outcome c c' ev es' h)

-- Consumer by consumer, what `Submit` does.
abbrev pub Each : Event → List Consumer → List Consumer → List (List Effect) → Type 0
Each ev [] [] [] = Unit {0}
Each ev (c ∷ cs) (c' ∷ cs') (es ∷ ess) = (submit ev c ≡ some (c', es)) × Each ev cs cs' ess
Each ev _ _ _ = ⊥

submit_total :
    (ev : Event) (c : Consumer)
    → c.drop ≡ true
    → (r : Consumer × List Effect) × (submit ev c ≡ some r)
unfolding submit
submit_total ev c h = elim (Option-cases (submit ev c)) [
  | inl blocked ↦ absurd (never blocked)
  | inr found ↦ found
]
  where
    never : submit ev c ≡ none → ⊥
    never blocked = ground arith

-- With consumers that drop, the fan-out never blocks: every consumer takes the event or counts it
-- as dropped, and none of the others makes a difference to it.
pub dispatch_total :
    (ev : Event) (cs : List Consumer)
    → All (λ c. c.drop ≡ true) cs
    → (cs' : List Consumer) × (ess : List (List Effect)) × (dispatch ev cs ≡ some (cs', ess))
      × Each ev cs cs' ess
unfolding dispatch
dispatch_total ev [] h = ([], [], refl, tt)
dispatch_total ev (c ∷ cs) h =
    let ((c', es), one) = submit_total ev c h.0 in
    let (cs', ess, all, each) = dispatch_total ev cs h.1 in
    (c' ∷ cs', es ∷ ess, rw (one, dispatch) (rw (all, dispatch) refl), (one, each))
