-- ===== src/App/Flow.antt =====
-- What the dispatcher hands on.
use redis_watcher.Base.{
  ℕ, suc, ◌+◌, ◌<◌, ◌≤◌, Bool, true, false, List, [], ◌∷◌, ◌++◌, append_assoc, append-nil, map,
  some, ◌≡◌, inl, inr, refl, arith, ◌∙◌,
}
use redis_watcher.Base.Bytes.{Bytes}
use redis_watcher.Base.Lists.{length, length-append, All}
use redis_watcher.Base.Tests.{if◌then◌else◌, Bool-cases}
use redis_watcher.Alert.Engine.{Engine}
use redis_watcher.Config.{contains}
use redis_watcher.Event.{Event}
use redis_watcher.Output.{Consumer}
use redis_watcher.App.{
  Dispatcher, Effect, to_outputs, to_alerts, dispatch_event, dispatch_events, ignored_event,
  record_event, dispatched, submitted,
}
use redis_watcher.Alert
use redis_watcher.Output

-- The events that are not ignored.
unfoldable pub kept : List Bytes → List Event → List Event
kept ignored [] = []
kept ignored (ev ∷ evs) =
    if contains ignored ev.command then kept ignored evs else ev ∷ kept ignored evs

kept_skips :
    (ignored : List Bytes) (ev : Event) (evs : List Event)
    → contains ignored ev.command ≡ true
    → kept ignored (ev ∷ evs) ≡ kept ignored evs
unfolding kept
kept_skips ignored ev evs h = rw h refl

kept_takes :
    (ignored : List Bytes) (ev : Event) (evs : List Event)
    → contains ignored ev.command ≡ false
    → kept ignored (ev ∷ evs) ≡ ev ∷ kept ignored evs
unfolding kept
kept_takes ignored ev evs h = rw h refl

abbrev pub queued : List Event → Consumer → Consumer
queued evs c = record c { queue = c.queue ++ evs }

abbrev pub queued_alerts : List Event → Engine → Engine
queued_alerts evs e = record e { queue = e.queue ++ evs }

abbrev pub Roomy : ℕ → List Consumer → Type 0
Roomy n = All (λ c. length c.queue + n ≤ c.capacity)

submit-roomy :
    (ev : Event) (c : Consumer)
    → length c.queue < c.capacity
    → Output.submit ev c ≡ some (queued (ev ∷ []) c, [])
unfolding Output.submit
submit-roomy ev c h = ground arith

submit_alerts-roomy :
    (ev : Event) (e : Engine)
    → length e.queue < e.capacity
    → Alert.Engine.submit ev e ≡ some (queued_alerts (ev ∷ []) e, false)
unfolding Alert.Engine.submit
submit_alerts-roomy ev e h = ground arith

dispatch-Roomy :
    (ev : Event) (n : ℕ) (cs : List Consumer)
    → Roomy (suc n) cs
    → ((ess : List (List Output.Effect)) × (Output.dispatch ev cs
          ≡ some (map (queued (ev ∷ [])) cs, ess)))
      × Roomy n (map (queued (ev ∷ [])) cs)
unfolding Output.dispatch
dispatch-Roomy ev n [] h = (([], refl), tt)
dispatch-Roomy ev n (c ∷ cs) h =
    let ((ess, later), rooms) = dispatch-Roomy ev n cs h.1 in
    let now = submit-roomy ev c (omega (arith, h.0)) in
    (
      ([] ∷ ess, rw (now, Output.dispatch) (rw (later, Output.dispatch) refl)),
      (omega (arith, h.0, length-append c.queue (ev ∷ [])), rooms),
    )

-- A dispatcher with outputs and an alert engine.
abbrev pub full : List Bytes → List Consumer → Engine → Dispatcher
full ignored cs e = record { ignored = ignored; outputs = some cs; alerts = some e }

dispatch_event-ignored :
    (ignored : List Bytes) (cs : List Consumer) (e : Engine) (ev : Event)
    → contains ignored ev.command ≡ true
    → dispatch_event (full ignored cs e) ev
      ≡ some (full ignored cs e, ignored_event ev.command ∷ [])
unfolding dispatch_event
dispatch_event-ignored ignored cs e ev h = rw h refl

dispatch_event-kept :
    (ignored : List Bytes) (cs cs' : List Consumer) (e e' : Engine) (ev : Event)
    (ess : List (List Output.Effect)) (told : Bool)
    → contains ignored ev.command ≡ false
    → Output.dispatch ev cs ≡ some (cs', ess)
    → Alert.Engine.submit ev e ≡ some (e', told)
    → dispatch_event (full ignored cs e) ev
      ≡ some (full ignored cs' e', record_event ev ∷ dispatched ess ∷ submitted told ∷ [])
unfolding dispatch_event to_outputs to_alerts
dispatch_event-kept ignored cs cs' e e' ev ess told h o a = ground arith

dispatch_events-step :
    (d d' : Dispatcher) (ev : Event) (evs : List Event) (es : List Effect)
    → dispatch_event d ev ≡ some (d', es)
    → dispatch_events d (ev ∷ evs) ≡ dispatch_events d' evs
unfolding dispatch_events
dispatch_events-step d d' ev evs es h = rw (h, dispatch_events) refl

queued_none : (cs : List Consumer) → map (queued []) cs ≡ cs
queued_none [] = refl
queued_none (c ∷ cs) = rw (append-nil c.queue, queued_none cs)

queued_more :
    (xs ys : List Event) (cs : List Consumer)
    → map (queued ys) (map (queued xs) cs) ≡ map (queued (xs ++ ys)) cs
queued_more xs ys [] = refl
queued_more xs ys (c ∷ cs) = rw (append_assoc c.queue xs ys, queued_more xs ys cs)

Roomy-less : (n : ℕ) (cs : List Consumer) → Roomy (suc n) cs → Roomy n cs
Roomy-less n [] h = tt
Roomy-less n (c ∷ cs) h = (omega (arith, h.0), Roomy-less n cs h.1)

-- While there is room, the dispatcher hands every event that is not ignored to every output and to
-- the alert engine, in the order of the stream and once each, and an ignored one to none of them.
pub dispatch_events-kept :
    (ignored : List Bytes) (evs : List Event) (cs : List Consumer) (e : Engine)
    → Roomy (length evs) cs
    → length e.queue + length evs ≤ e.capacity
    → dispatch_events (full ignored cs e) evs
      ≡ some
          (full ignored (map (queued (kept ignored evs)) cs) (queued_alerts (kept ignored evs) e))
dispatch_events-kept ignored [] cs e h k =
    unfold dispatch_events kept in rw (queued_none cs, append-nil e.queue) refl
dispatch_events-kept ignored (ev ∷ evs) cs e h k = elim (Bool-cases (contains ignored ev.command)) [
  | inl skipped ↦
      dispatch_events-step _ _ ev evs _ (dispatch_event-ignored ignored cs e ev skipped)
      ∙ dispatch_events-kept ignored evs cs e (Roomy-less (length evs) cs h) (omega (arith, k))
      ∙ rw (kept_skips ignored ev evs skipped) refl
  | inr passed ↦
      let ((ess, o), rooms) = dispatch-Roomy ev (length evs) cs h in
      let a = submit_alerts-roomy ev e (omega (arith, k)) in
      let wide = length-append e.queue (ev ∷ []) in
      dispatch_events-step _ _ ev evs _
        (dispatch_event-kept ignored cs _ e _ ev ess false passed o a)
      ∙ dispatch_events-kept ignored evs (map (queued (ev ∷ [])) cs) (queued_alerts (ev ∷ []) e)
          rooms (omega (arith, k, wide))
      ∙ rw
          (
            kept_takes ignored ev evs passed,
            queued_more (ev ∷ []) (kept ignored evs) cs,
            append_assoc e.queue (ev ∷ []) (kept ignored evs),
          )
          refl
]
