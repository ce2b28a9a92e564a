-- ===== src/Alert/Engine/Turns.antt =====
-- Turns of the engine's `Run`, one after the other, without a rate limit.
use redis_watcher.Base.{
  ℕ, List, [], ◌∷◌, ◌++◌, map, none, some, ◌≡◌, inl, inr, refl, arith, ap, ◌∙◌, true,
}
use redis_watcher.Base.Bytes.{Bytes}
use redis_watcher.Base.Lists.{length, take}
use redis_watcher.Base.Tests.{if◌then◌else◌, Option-cases, Bool-cases}
use redis_watcher.Alert.Limiter.{active_limit, rate_limit_allow}
use redis_watcher.Alert.Retry.{World}
use redis_watcher.Alert.Engine.{
  Engine, Alert, Action, dispatched, suspicious_observed, rate_limited, alert_of, observe, match,
  contains, dispatch, has_reporter, handle, run_one,
}
use redis_watcher.Alert.Engine.Laws.{channel_of, send_all_lem}
use redis_watcher.Event.{Event}

-- What the channels do in a turn, and its instant.
abbrev pub Turn : Type 0
Turn = (Bytes → World) × ℕ

-- The turns of `Run`, until the queue is empty or no more are given.
unfoldable pub turns : List Turn → Engine → Engine × List Action
turns [] e = (e, [])
turns ((world, now) ∷ ws) e = elim (run_one e world now) [
  | none ↦ (e, [])
  | some (e', acts) ↦ let (e'', acts') = turns ws e' in (e'', acts ++ acts')
]

-- The alerts among the actions, with the channels that each was sent to.
unfoldable pub raised : List Action → List (Alert × List Bytes)
raised [] = []
raised (suspicious_observed _ _ ∷ acts) = raised acts
raised (rate_limited _ ∷ acts) = raised acts
raised (dispatched a sent e ∷ acts) = (a, map channel_of sent) ∷ raised acts

raised-append : (a b : List Action) → raised (a ++ b) ≡ raised a ++ raised b
unfolding raised
raised-append [] b = refl
raised-append (suspicious_observed _ _ ∷ a) b = raised-append a b
raised-append (rate_limited _ ∷ a) b = raised-append a b
raised-append (dispatched x s e ∷ a) b = ground (arith, raised-append a b)

-- The alert for an event, where a rule matches it and its address is not ignored.
abbrev pub alert_for : Engine → Event → List (Alert × List Bytes)
alert_for e ev = elim (match e ev) [
  | none ↦ []
  | some reason ↦
      if contains e.ignored_ips ev.source.ip then [] else (alert_of ev reason, e.channels) ∷ []
]

abbrev pub flagged : Engine → List Event → List (Alert × List Bytes)
flagged e [] = []
flagged e (ev ∷ evs) = alert_for e ev ++ flagged e evs

observe-raised : (e : Engine) (ev : Event) → raised (observe e ev) ≡ []
unfolding raised
observe-raised e ev = elim (Bool-cases (has_reporter e.policy.reporter)) [
  | inl told ↦ rw told refl
  | inr silent ↦ rw silent refl
]

dispatch-raised :
    (e : Engine) (world : Bytes → World) (ev : Event) (reason : Bytes)
    → raised (dispatch e world ev reason ∷ []) ≡ (alert_of ev reason, e.channels) ∷ []
unfolding raised dispatch
dispatch-raised e world ev reason = rw ((send_all_lem e.policy world e.channels).0) refl

passes :
    (e : Engine) (ev : Event) (now : ℕ)
    → active_limit e.limit ≡ none
    → rate_limit_allow e.limit e.rates ev now ≡ (e.rates, true)
unfolding rate_limit_allow
passes e ev now free = rw (free, rate_limit_allow) refl

handle-raised :
    (e : Engine) (world : Bytes → World) (now : ℕ) (ev : Event)
    → active_limit e.limit ≡ none
    → ((handle e world now ev).0 ≡ e) × (raised (handle e world now ev).1 ≡ alert_for e ev)
unfolding handle
handle-raised e world now ev free = elim (Option-cases (match e ev)) [
  | inl missed ↦ rw (missed, handle, alert_for) (refl, unfold raised in refl)
  | inr (reason, hit) ↦ elim (Bool-cases (contains e.ignored_ips ev.source.ip)) [
    | inl skipped ↦ rw (hit, skipped, handle, alert_for) (refl, unfold raised in refl)
    | inr seen ↦
        rw (hit, seen, passes e ev now free, handle, alert_for)
          (
            refl,
            raised-append (observe e ev) (dispatch e world ev reason ∷ [])
                ∙ rw (observe-raised e ev) (dispatch-raised e world ev reason),
          )
  ]
]

alert_for-queue :
    (e : Engine) (q : List Event) (ev : Event)
    → alert_for (record e { queue = q }) ev ≡ alert_for e ev
unfolding match
alert_for-queue e q ev = refl

turns-cons :
    (world : Bytes → World) (now : ℕ) (ws : List Turn) (e : Engine) (ev : Event) (q : List Event)
    → active_limit e.limit ≡ none
    → raised (turns ((world, now) ∷ ws) (record e { queue = ev ∷ q })).1
      ≡ alert_for e ev ++ raised (turns ws (record e { queue = q })).1
unfolding turns run_one
turns-cons world now ws e ev q free =
    let e1 = record e { queue = q } in
    let (same, told) = handle-raised e1 world now ev free in
    raised-append (handle e1 world now ev).1 (turns ws (handle e1 world now ev).0).1
    ∙ rw (same, told, alert_for-queue e q ev) refl

-- Without a limit the turns raise, for the events at the front of the queue, one in each turn and in
-- their order, an alert for each that a rule matches and whose address is not ignored, to every
-- channel, and no other.
pub turns-raised :
    (ws : List Turn) (q : List Event) (e : Engine)
    → active_limit e.limit ≡ none
    → raised (turns ws (record e { queue = q })).1 ≡ flagged e (take (length ws) q)
turns-raised [] q e free = unfold turns raised in refl
turns-raised ((world, now) ∷ ws) [] e free = unfold turns run_one raised in refl
turns-raised ((world, now) ∷ ws) (ev ∷ q) e free =
    turns-cons world now ws e ev q free ∙ ap (λ x. alert_for e ev ++ x) (turns-raised ws q e free)
