-- ===== src/Output/Failing.antt =====
-- When a consumer says that it fails: the gauge and the reports to Sentry.
use redis_watcher.Base.{
  ℕ, Bool, true, false, List, [], ◌∷◌, ◌++◌, Option, none, some, ◌≡◌, inl, inr, refl, arith, ◌∙◌,
}
use redis_watcher.Base.Bytes.{Bytes}
use redis_watcher.Base.Tests.{Option-cases}
use redis_watcher.Event.{Event}
use redis_watcher.Output.{
  Consumer, Effect, new_consumer, submit, write_one, run_one, observe_output_write,
  incr_output_written, incr_output_dropped, incr_output_error, set_output_failing, report,
}
use redis_watcher.Output.Queue.{Run, started, submitted, served}

-- What a reader of the effects knows: what the gauge shows, or that it has just changed to failing
-- and the report has to follow.
pub data Watch : Type 0 where
  shown : Bool → Watch
  to_report : Watch

-- One effect: `none` where a call of the gauge changes nothing, a report comes without a change to
-- failing, or such a change without its report.
unfoldable pub look : Watch → Effect → Option Watch
look (shown false) (set_output_failing true) = some to_report
look (shown true) (set_output_failing false) = some (shown false)
look to_report (report _ _ _) = some (shown true)
look (shown b) observe_output_write = some (shown b)
look (shown b) incr_output_written = some (shown b)
look (shown b) incr_output_dropped = some (shown b)
look (shown b) incr_output_error = some (shown b)
look _ _ = none

unfoldable pub follow : Watch → List Effect → Option Watch
follow w [] = some w
follow w (e ∷ es) = elim (look w e) [ none ↦ none | some w' ↦ follow w' es ]

follow-append :
    (es es' : List Effect) (w w' : Watch)
    → follow w es ≡ some w'
    → follow w (es ++ es') ≡ follow w' es'
unfolding follow
follow-append [] es' w w' h = ground arith
follow-append (e ∷ es) es' w w' h = elim (Option-cases (look w e)) [
  | inl stops ↦ absurd (stop stops)
  | inr (v, goes) ↦ rw (goes, follow) (follow-append es es' v w' (rw (goes, follow) at h))
]
  where
    stop : look w e ≡ none → ⊥
    stop stops = ground arith

submit-follow :
    (ev : Event) (c c' : Consumer) (es : List Effect)
    → submit ev c ≡ some (c', es)
    → follow (shown c.failing) es ≡ some (shown c'.failing)
unfolding submit follow look
submit-follow ev c c' es h = ground arith

run_one-follow :
    (outcome : Option Bytes) (c c' : Consumer) (ev : Event) (es : List Effect)
    → run_one outcome c ≡ some (ev, c', es)
    → follow (shown c.failing) es ≡ some (shown c'.failing)
unfolding run_one write_one follow look
run_one-follow outcome c c' ev es h = ground arith

-- In every run, each call of the failing gauge changes what it shows, it ends at the consumer's own
-- flag, and an error is reported to Sentry once for each change to failing, at once, and never
-- otherwise.
pub Run-follow :
    (buffer : ℕ) (drop_on_full : Bool) (offered tried : List Event) (es : List Effect)
    (c : Consumer)
    → Run buffer drop_on_full offered tried es c
    → follow (shown false) es ≡ some (shown c.failing)
unfolding new_consumer follow
Run-follow b d _ _ _ _ started = refl
Run-follow b d _ _ _ c' (submitted {offered} {tried} {es} {es'} {c} ev r h) =
    follow-append es es' (shown false) (shown c.failing) (Run-follow b d offered tried es c r)
    ∙ submit-follow ev c c' es' h
Run-follow b d _ _ _ c' (served {offered} {tried} {es} {es'} {c} ev outcome r h) =
    follow-append es es' (shown false) (shown c.failing) (Run-follow b d offered tried es c r)
    ∙ run_one-follow outcome c c' ev es' h
