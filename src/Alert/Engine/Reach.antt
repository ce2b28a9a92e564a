-- ===== src/Alert/Engine/Reach.antt =====
-- The engine over any interleaving of `Submit` by the dispatcher and turns of `Run`.
use redis_watcher.Base.{
  ℕ, ◌≤◌, ◌<◌, Bool, List, [], ◌∷◌, ◌++◌, append_assoc, append-nil, map, Option, some, ◌≡◌, refl,
  inl, inr, arith, ap, ◌∙◌, sym,
}
use redis_watcher.Base.Bytes.{Bytes}
use redis_watcher.Base.Lists.{length}
use redis_watcher.Base.Results.{ok, bind-eq-ok}
use redis_watcher.Base.Tests.{Option-cases, Bool-cases}
use redis_watcher.Alert.Limiter.{rate_limit_allow}
use redis_watcher.Alert.Retry.{World}
use redis_watcher.Alert.Engine.{
  Engine, Options, Action, submit, match, dispatch, contains, handle, run_one, new, compile_all,
}
use redis_watcher.Alert.Engine.Valid.{IsValid, new-IsValid, submit-IsValid, run_one-IsValid}
use redis_watcher.Event.{Event}
use redis_watcher.Go.Text.{Unicode}

-- An event that was handled, with what the channels did and the instant.
abbrev pub Handled : Type 0
Handled = Event × (Bytes → World) × ℕ

abbrev pub event_of : Handled → Event
event_of h = h.0

-- The events handled one after the other, without a queue.
unfoldable pub replay : Engine → List Handled → Engine × List Action
replay e [] = (e, [])
replay e ((ev, world, now) ∷ hs) =
    let (e', acts) = handle e world now ev in
    let (e'', acts') = replay e' hs in (e'', acts ++ acts')

-- The runs of an engine, with the events that were taken into the queue, the turns, by the event at
-- the front of the queue, and what the engine did in them, in order. A full queue refuses an event.
pub data Run (e0 : Engine) : List Event → List Handled → List Action → Engine → Type 0 where
  start : Run e0 [] [] [] e0
  taken :
      {ins : List Event} {outs : List Handled} {acts : List Action} {e e' : Engine} {told : Bool}
      (ev : Event)
      → Run e0 ins outs acts e
      → length e.queue < e.capacity
      → submit ev e ≡ some (e', told)
      → Run e0 (ins ++ ev ∷ []) outs acts e'
  refused :
      {ins : List Event} {outs : List Handled} {acts : List Action} {e e' : Engine} {told : Bool}
      (ev : Event)
      → Run e0 ins outs acts e
      → e.capacity ≤ length e.queue
      → submit ev e ≡ some (e', told)
      → Run e0 ins outs acts e'
  turn :
      {ins : List Event} {outs : List Handled} {acts acts' : List Action} {e e' : Engine}
      (ev : Event) (rest : List Event) (world : Bytes → World) (now : ℕ)
      → Run e0 ins outs acts e
      → e.queue ≡ ev ∷ rest
      → run_one e world now ≡ some (e', acts')
      → Run e0 ins (outs ++ (ev, world, now) ∷ []) (acts ++ acts') e'

-- An engine with the queue and the count of drops of another one.
abbrev requeued : Engine → Engine → Engine
requeued e q = record e { queue = q.queue; dropped = q.dropped }

handle-requeued :
    (e q : Engine) (world : Bytes → World) (now : ℕ) (ev : Event)
    → handle (requeued e q) world now ev
      ≡ (requeued (handle e world now ev).0 q, (handle e world now ev).1)
unfolding handle match dispatch
handle-requeued e q world now ev = elim (Option-cases (match e ev)) [
  | inl missed ↦ rw (missed, handle) refl
  | inr (reason, hit) ↦ elim (Bool-cases (contains e.ignored_ips ev.source.ip)) [
    | inl skipped ↦ rw (hit, skipped, handle) refl
    | inr seen ↦ elim (Bool-cases (rate_limit_allow e.limit e.rates ev now).1) [
      | inl passes ↦ rw (hit, seen, passes, handle) refl
      | inr stopped ↦ rw (hit, seen, stopped, handle) refl
    ]
  ]
]

replay-snoc :
    (e : Engine) (hs : List Handled) (ev : Event) (world : Bytes → World) (now : ℕ)
    → replay e (hs ++ (ev, world, now) ∷ []) ≡ (
      (handle (replay e hs).0 world now ev).0,
      (replay e hs).1 ++ (handle (replay e hs).0 world now ev).1,
    )
unfolding replay
replay-snoc e [] ev world now =
    ap (λ x. ((handle e world now ev).0, x)) (append-nil (handle e world now ev).1)
replay-snoc e ((ev', world', now') ∷ hs) ev world now =
    let (e1, acts) = handle e world' now' ev' in
    ap (λ x. (x.0, acts ++ x.1)) (replay-snoc e1 hs ev world now)
    ∙ ap (λ x. ((handle (replay e1 hs).0 world now ev).0, x))
        (sym (append_assoc acts (replay e1 hs).1 (handle (replay e1 hs).0 world now ev).1))

submit-taken :
    (ev : Event) (e e' : Engine) (told : Bool)
    → length e.queue < e.capacity
    → submit ev e ≡ some (e', told)
    → e'.queue ≡ e.queue ++ ev ∷ []
unfolding submit
submit-taken ev e e' told room h = ground arith

submit-refused :
    (ev : Event) (e e' : Engine) (told : Bool)
    → e.capacity ≤ length e.queue
    → submit ev e ≡ some (e', told)
    → e'.queue ≡ e.queue
unfolding submit
submit-refused ev e e' told full h = ground arith

handle-queue :
    (e : Engine) (world : Bytes → World) (now : ℕ) (ev : Event)
    → (handle e world now ev).0.queue ≡ e.queue
unfolding handle
handle-queue e world now ev = ground arith

run_one-queue :
    (e e' : Engine) (world : Bytes → World) (now : ℕ) (acts : List Action) (ev : Event)
    (rest : List Event)
    → e.queue ≡ ev ∷ rest
    → run_one e world now ≡ some (e', acts)
    → e'.queue ≡ rest
unfolding run_one
run_one-queue e e' world now acts ev rest q h =
    ground (arith, handle-queue (record e { queue = rest }) world now ev)

submit-requeued :
    (ev : Event) (e e' : Engine) (told : Bool) → submit ev e ≡ some (e', told) → e' ≡ requeued e e'
unfolding submit
submit-requeued ev e e' told h = ground arith

run_one-handle :
    (e e' : Engine) (world : Bytes → World) (now : ℕ) (acts : List Action) (ev : Event)
    (rest : List Event)
    → e.queue ≡ ev ∷ rest
    → run_one e world now ≡ some (e', acts)
    → (e', acts) ≡ handle (record e { queue = rest }) world now ev
unfolding run_one
run_one-handle e e' world now acts ev rest q h = ground (arith)

-- The engine is the one that has handled the events without a queue, but for the queue.
abbrev Replayed : Engine → List Handled → List Action → Engine → Type 0
Replayed e0 outs acts e = (e ≡ requeued (replay e0 outs).0 e) × (acts ≡ (replay e0 outs).1)

abbrev Kept : Engine → List Event → List Handled → List Action → Engine → Type 0
Kept e0 ins outs acts e = IsValid e × (map event_of outs ++ e.queue ≡ ins) × Replayed e0 outs acts e

turn-Replayed :
    (e0 e e' : Engine) (outs : List Handled) (acts acts' : List Action) (ev : Event)
    (rest : List Event) (world : Bytes → World) (now : ℕ)
    → e.queue ≡ ev ∷ rest
    → run_one e world now ≡ some (e', acts')
    → Replayed e0 outs acts e
    → Replayed e0 (outs ++ (ev, world, now) ∷ []) (acts ++ acts') e'
turn-Replayed e0 e e' outs acts acts' ev rest world now front h (same, told) =
    let past = (replay e0 outs).0 in
    let here = record e { queue = rest } in
    let done : (e', acts')
        ≡ (requeued (handle past world now ev).0 here, (handle past world now ev).1) =
      run_one-handle e e' world now acts' ev rest front h
      ∙ ap (λ x. handle (record x { queue = rest }) world now ev) same
      ∙ handle-requeued past here world now ev in
    let longer = replay-snoc e0 outs ev world now in
    (
      ap (λ x. x.0) done
          ∙ ap (requeued (handle past world now ev).0) (sym (ap (λ x. x.0) done))
          ∙ ap (λ x. requeued x.0 e') (sym longer),
      ap (λ x. x ++ acts') told
          ∙ ap (λ x. (replay e0 outs).1 ++ x.1) done
          ∙ ap (λ x. x.1) (sym longer),
    )

map-snoc :
    (hs : List Handled) (h : Handled) → map event_of (hs ++ h ∷ []) ≡ map event_of hs ++ h.0 ∷ []
map-snoc [] h = refl
map-snoc (x ∷ hs) h = ap (◌∷◌ x.0) (map-snoc hs h)

Run-Kept :
    {e0 : Engine} {ins : List Event} {outs : List Handled} {acts : List Action} {e : Engine}
    → IsValid e0
    → e0.queue ≡ []
    → Run e0 ins outs acts e
    → Kept e0 ins outs acts e
Run-Kept v q start = (v, q, unfold replay in (refl, refl))
Run-Kept {e0} v q (taken {ins} {outs} {acts} {e} {e'} {told} ev before room h) =
    let (valid, fifo, (same, acted)) = Run-Kept v q before in
    (
      submit-IsValid ev e e' told h valid,
      ap (λ x. map event_of outs ++ x) (submit-taken ev e e' told room h)
          ∙ sym (append_assoc (map event_of outs) e.queue (ev ∷ []))
          ∙ ap (λ x. x ++ ev ∷ []) fifo,
      (submit-requeued ev e e' told h ∙ ap (λ x. requeued x e') same, acted),
    )
Run-Kept v q (refused {ins} {outs} {acts} {e} {e'} {told} ev before full h) =
    let (valid, fifo, (same, acted)) = Run-Kept v q before in
    (
      submit-IsValid ev e e' told h valid,
      ap (λ x. map event_of outs ++ x) (submit-refused ev e e' told full h) ∙ fifo,
      (submit-requeued ev e e' told h ∙ ap (λ x. requeued x e') same, acted),
    )
Run-Kept {e0} v q (turn {ins} {outs} {acts} {acts'} {e} {e'} ev rest world now before front h) =
    let (valid, fifo, replayed) = Run-Kept v q before in
    (
      run_one-IsValid e e' world now acts' h valid,
      ap (λ x. x ++ e'.queue) (map-snoc outs (ev, world, now))
          ∙ ap (λ x. (map event_of outs ++ ev ∷ []) ++ x)
              (run_one-queue e e' world now acts' ev rest front h)
          ∙ append_assoc (map event_of outs) (ev ∷ []) rest
          ∙ ap (λ x. map event_of outs ++ x) (sym front)
          ∙ fifo,
      turn-Replayed e0 e e' outs acts acts' ev rest world now front h replayed,
    )

new-empty :
    (u : Unicode) (compile : Bytes → Option (Bytes → Bool)) (o : Options) (e : Engine)
    → new u compile o ≡ ok e
    → e.queue ≡ []
unfolding new
new-empty u compile o e h =
    let (ps, compiled, built) = bind-eq-ok (compile_all compile o.patterns) _ h in ground arith

-- Over any interleaving of submissions and turns, an engine that `New` has built, whatever the
-- options, stays valid: it tries at least once, its first delay is neither negative nor above a cap
-- that is set, and its queue never holds more than its capacity, which is positive. Its turns come
-- to the events that it took in the order in which it took them: those and the ones still waiting
-- are together the events taken. And what it did in its turns, and its rate table, are what
-- `handle` does and leaves on these events one after the other, without a queue between.
pub Run-IsValid :
    (u : Unicode) (compile : Bytes → Option (Bytes → Bool)) (o : Options) {e0 e : Engine}
    {ins : List Event} {outs : List Handled} {acts : List Action}
    → new u compile o ≡ ok e0
    → Run e0 ins outs acts e
    → IsValid e
      × (map event_of outs ++ e.queue ≡ ins)
      × (acts ≡ (replay e0 outs).1)
      × (e.rates ≡ (replay e0 outs).0.rates)
Run-IsValid u compile o {e0} built run =
    let (valid, fifo, (same, acted)) =
      Run-Kept (new-IsValid u compile o e0 built) (new-empty u compile o e0 built) run in
    (valid, fifo, acted, ap (λ x. x.rates) same)
