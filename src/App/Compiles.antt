-- ===== src/App/Compiles.antt =====
-- internal/app/app.go: why `buildAlertEngine` fails.
use redis_watcher.Base.{
  Bool, true, List, [], ◌∷◌, sym, Option, none, some, ◌≡◌, ◌⊎◌, inl, inr, refl, ◌∙◌,
}
use redis_watcher.Base.Bytes.{Bytes, is_empty}
use redis_watcher.Base.Results.{Result, ok, err, ◌>>=◌}
use redis_watcher.Base.Tests.{Bool-cases, Option-cases}
use redis_watcher.Alert.Engine.{Engine, Pattern, case_insensitive, compile_all, new}
use redis_watcher.App.{channels_of, options_of, build_alert_engine}
use redis_watcher.Config.{Config}
use redis_watcher.Go.Text.{Unicode}

-- The errors that `Run` returns.

bind-ok-err {ℓ κ} :
    {E : Type 0} {A : Type ℓ} {B : Type κ} (m : Result E A) (g : A → B) (x : E)
    → (m >>= λ a. ok (g a)) ≡ err x
    → m ≡ err x
bind-ok-err (ok a) g x h = cc
bind-ok-err (err e) g x h = cc

module _ (compile : Bytes → Option (Bytes → Bool)) where
  -- The first pattern that does not compile.
  abbrev pub FirstRefused : List Bytes → Bytes → Type 0
  FirstRefused [] x = ⊥
  FirstRefused (p ∷ ps) x =
      ((compile (case_insensitive p) ≡ none) × (p ≡ x))
      ⊎ ((test : Bytes → Bool) × (compile (case_insensitive p) ≡ some test) × FirstRefused ps x)

  compile_all-none :
      (p : Bytes) (ps : List Bytes)
      → compile (case_insensitive p) ≡ none
      → compile_all compile (p ∷ ps) ≡ err p
  unfolding compile_all
  compile_all-none p ps bad = rw (bad, compile_all) refl

  compile_all-some :
      (p : Bytes) (ps : List Bytes) (test : Bytes → Bool) (x : Bytes)
      → compile (case_insensitive p) ≡ some test
      → compile_all compile (p ∷ ps) ≡ err x
      → compile_all compile ps ≡ err x
  unfolding compile_all
  compile_all-some p ps test x good h =
      bind-ok-err (compile_all compile ps) _ x (rw (good, compile_all) at h)

  same_error : (p x : Bytes) → ◌≡◌ {A = Result Bytes (List Pattern)} (err p) (err x) → p ≡ x
  same_error p x h = cc

  no_error : (x : Bytes) → ◌≡◌ {A = Result Bytes (List Pattern)} (ok []) (err x) → ⊥
  no_error x h = cc

  compile_all-FirstRefused :
      (ps : List Bytes) (x : Bytes) → compile_all compile ps ≡ err x → FirstRefused ps x
  compile_all-FirstRefused [] x h = absurd (no_error x (unfold compile_all in h))
  compile_all-FirstRefused (p ∷ ps) x h = elim (Option-cases (compile (case_insensitive p))) [
    | inl bad ↦ inl (bad, same_error p x (sym (compile_all-none p ps bad) ∙ h))
    | inr (test, good) ↦
        inr (test, good, compile_all-FirstRefused ps x (compile_all-some p ps test x good h))
  ]

  no_engine : (x : Bytes) → ◌≡◌ {A = Result Bytes (Option Engine)} (ok none) (err x) → ⊥
  no_engine x h = cc

  new-FirstRefused :
      (u : Unicode) (c : Config) (x : Bytes)
      → new u compile (options_of c) ≡ err x
      → FirstRefused c.alerts.patterns x
  unfolding new options_of
  new-FirstRefused u c x h =
      compile_all-FirstRefused c.alerts.patterns x
        (bind-ok-err (compile_all compile c.alerts.patterns) _ x h)

  pub build_alert_engine-FirstRefused :
      (u : Unicode) (c : Config) (x : Bytes)
      → build_alert_engine u compile c ≡ err x
      → (c.alerts.enabled ≡ true) × FirstRefused c.alerts.patterns x
  unfolding build_alert_engine
  build_alert_engine-FirstRefused u c x h = elim (Bool-cases c.alerts.enabled) [
    | inr off ↦ absurd (no_engine x (rw off at h))
    | inl on ↦ elim (Bool-cases (is_empty (channels_of c.alerts))) [
      | inl nowhere ↦ absurd (no_engine x (rw (on, nowhere) at h))
      | inr somewhere ↦ (
        on,
        new-FirstRefused u c x
            (bind-ok-err (new u compile (options_of c)) some x (rw (on, somewhere) at h)),
      )
    ]
  ]
