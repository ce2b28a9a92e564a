-- ===== src/App/Health.antt =====
-- What the readiness probe of internal/metrics says of the components that report to it: the
-- consumers of internal/output and the MONITOR client.
use redis_watcher.Base.{
  ℕ, Bool, true, false, List, [], ◌∷◌, ◌++◌, Option, none, some, ◌≡◌, ◌⊎◌, inl, inr, refl, arith,
  ap, ◌∙◌, sym,
}
use redis_watcher.Base.Bytes.{Bytes}
use redis_watcher.Base.Results.{Result}
use redis_watcher.Base.Tests.{Bool-cases, Option-cases}
use redis_watcher.Event.{Event}
use redis_watcher.Go.Int.{ℤ}
use redis_watcher.Go.Text.{Unicode}
use redis_watcher.Metrics.{Registry, new_registry, readyz_status, ready}
use redis_watcher.Metrics.Ready.{
  Call, after_calls, latest, connection, output_test, readyz_status_iff,
}
use redis_watcher.Monitor.Client.{Client}
use redis_watcher.Monitor.Client.Session.{run_once}
use redis_watcher.Monitor.Client.Session.Served.{reports, run_once-reports}
use redis_watcher.Output.{
  Consumer, Effect, observe_output_write, incr_output_written, incr_output_dropped,
  incr_output_error, set_output_failing, report,
}
use redis_watcher.Output.Failing.{Watch, shown, to_report, look, follow, Run-follow}
use redis_watcher.Output.Queue.{Run}
use redis_watcher.Resp.{Conn}

-- The answers of a test to the calls, in the order of time; the calls come latest first.
abbrev pub told : (Call → Option Bool) → List Call → List Bool
told f [] = []
told f (c ∷ cs) = elim (f c) [ none ↦ told f cs | some b ↦ told f cs ++ b ∷ [] ]

abbrev last_of : Bool → List Bool → Bool
last_of b [] = b
last_of b (x ∷ xs) = last_of x xs

last_of-snoc : (b x : Bool) (xs : List Bool) → last_of b (xs ++ x ∷ []) ≡ x
last_of-snoc b x [] = refl
last_of-snoc b x (y ∷ xs) = last_of-snoc y x xs

last_of-append : (b : Bool) (xs ys : List Bool) → last_of b (xs ++ ys) ≡ last_of (last_of b xs) ys
last_of-append b [] ys = refl
last_of-append b (x ∷ xs) ys = last_of-append x xs ys

latest-told : (f : Call → Option Bool) (cs : List Call) → latest f cs ≡ last_of false (told f cs)
unfolding latest
latest-told f [] = refl
latest-told f (c ∷ cs) = elim (Option-cases (f c)) [
  | inl other ↦ rw (other, latest, told) (latest-told f cs)
  | inr (b, this) ↦ rw (this, latest, told) (sym (last_of-snoc false b (told f cs)))
]

-- The calls of the failing gauge that a consumer makes.
abbrev pub flags : List Effect → List Bool
flags [] = []
flags (set_output_failing b ∷ es) = b ∷ flags es
flags (_ ∷ es) = flags es

-- What the gauge shows to a watcher.
abbrev value : Watch → Bool
value (shown b) = b
value to_report = true

-- What the gauge shows after an effect that was let pass.
after_look : Watch → Effect → Bool
after_look w (set_output_failing b) = b
after_look w _ = value w

look-after_look : (w w' : Watch) (e : Effect) → look w e ≡ some w' → value w' ≡ after_look w e
unfolding look after_look
look-after_look (shown b) w' (set_output_failing b') h = ground arith
look-after_look (shown b) w' (report a e c) h = absurd (ground arith)
look-after_look (shown b) w' observe_output_write h = ground arith
look-after_look (shown b) w' incr_output_written h = ground arith
look-after_look (shown b) w' incr_output_dropped h = ground arith
look-after_look (shown b) w' incr_output_error h = ground arith
look-after_look to_report w' (report a e c) h = ground arith
look-after_look to_report w' (set_output_failing b') h = absurd (ground arith)
look-after_look to_report w' observe_output_write h = absurd (ground arith)
look-after_look to_report w' incr_output_written h = absurd (ground arith)
look-after_look to_report w' incr_output_dropped h = absurd (ground arith)
look-after_look to_report w' incr_output_error h = absurd (ground arith)

flags-after_look :
    (w : Watch) (e : Effect) (es : List Effect)
    → last_of (value w) (flags (e ∷ es)) ≡ last_of (after_look w e) (flags es)
unfolding after_look
flags-after_look w (set_output_failing b) es = refl
flags-after_look w (report a e c) es = refl
flags-after_look w observe_output_write es = refl
flags-after_look w incr_output_written es = refl
flags-after_look w incr_output_dropped es = refl
flags-after_look w incr_output_error es = refl

follow-flags :
    (es : List Effect) (w w' : Watch)
    → follow w es ≡ some w'
    → last_of (value w) (flags es) ≡ value w'
unfolding follow
follow-flags [] w w' h = let same : w ≡ w' = cc in ap value same
follow-flags (e ∷ es) w w' h = elim (Option-cases (look w e)) [
  | inl stops ↦ absurd (stop stops)
  | inr (v, goes) ↦
      flags-after_look w e es
      ∙ ap (λ x. last_of x (flags es)) (sym (look-after_look w v e goes))
      ∙ follow-flags es v w' (rw (goes, follow) at h)
]
  where
    stop : look w e ≡ none → ⊥
    stop stops = ground arith

-- Connections of the client, one after the other, with the reports of the connection's state.
pub data Sessions (u : Unicode) (username password : Bytes)
    : Client → List Bool → Client → Type 0 where
  idle : {c : Client} → Sessions u username password c [] c
  session :
      {c c' : Client} {bs : List Bool} (dialled : Result Bytes Conn)
      → Sessions u username password c bs c'
      → Sessions u username password c
          (bs ++ reports (run_once u username password dialled c').1)
          (run_once u username password dialled c').0

Sessions-last_of :
    {u : Unicode} {username password : Bytes} {c c' : Client} {bs : List Bool}
    → Sessions u username password c bs c'
    → last_of false bs ≡ false
Sessions-last_of idle = refl
Sessions-last_of {u} {username} {password} (session {c} {c'} {bs} dialled before) =
    last_of-append false bs (reports (run_once u username password dialled c').1)
    ∙ ap (λ b. last_of b (reports (run_once u username password dialled c').1))
        (Sessions-last_of before)
    ∙ elim (run_once-reports u username password dialled c') [
      | inl (quiet, same) ↦ ap (last_of false) quiet
      | inr (pair, opened) ↦ ap (last_of false) pair
    ]

readyz_status_cases : (r : Registry) → (readyz_status r ≡ 200) ⊎ (readyz_status r ≡ 503)
unfolding readyz_status
readyz_status_cases r = elim (Bool-cases (ready r)) [
  | inl up ↦ inl (rw up refl)
  | inr down ↦ inr (rw down refl)
]

module _ (ignored : List Bytes) (track : Bool) (version commit : Bytes) (start : ℤ) where
  abbrev probe : List Call → ℕ
  probe cs = readyz_status (after_calls (new_registry ignored track version commit start) cs)

  -- When the readiness probe answers 200, no output is failing whose name is its own: the registry
  -- has had the calls of the gauge for that name from one consumer only, in order, among any calls
  -- of other components.
  pub readyz_status-Run :
      (name : Bytes) (buffer : ℕ) (drop_on_full : Bool) (offered tried : List Event)
      (es : List Effect) (c : Consumer) (cs : List Call)
      → Run buffer drop_on_full offered tried es c
      → told (output_test name) cs ≡ flags es
      → probe cs ≡ 200
      → c.failing ≡ false
  readyz_status-Run name buffer drop_on_full offered tried es c cs run same up =
      let (conn, known, outs, chans) =
        (readyz_status_iff ignored track version commit start cs).0 up in
      sym (
        follow-flags es (shown false) (shown c.failing)
          (Run-follow buffer drop_on_full offered tried es c run))
      ∙ ap (last_of false) (sym same)
      ∙ sym (latest-told (output_test name) cs)
      ∙ outs name

  -- Between the connections of the client, whatever the server did in each of them, the readiness
  -- probe answers 503, and it does before the first one.
  pub readyz_status-Sessions :
      (u : Unicode) (username password : Bytes) (c c' : Client) (bs : List Bool) (cs : List Call)
      → Sessions u username password c bs c'
      → told connection cs ≡ bs
      → probe cs ≡ 503
  readyz_status-Sessions u username password c c' bs cs sessions same =
      down (latest-told connection cs ∙ ap (last_of false) same ∙ Sessions-last_of sessions)
    where
      clash : true ≡ false → ⊥
      clash k = cc

      down : latest connection cs ≡ false → probe cs ≡ 503
      down h =
          elim (readyz_status_cases
            (after_calls (new_registry ignored track version commit start) cs)) [
              | inr unready ↦ unready
              | inl up ↦ absurd (
                  clash
                    (sym ((readyz_status_iff ignored track version commit start cs).0 up).0 ∙ h))
            ]
