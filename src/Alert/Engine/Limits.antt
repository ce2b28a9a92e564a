-- ===== src/Alert/Engine/Limits.antt =====
-- The rate limit of a whole engine: how many alerts it raises for one command and address.
use redis_watcher.Base.{
  ℕ, ◌+◌, ◌*◌, ◌≤◌, ◌<◌, Bool, true, false, ◌&&◌, List, [], ◌∷◌, none, some, ◌≡◌, ◌⊎◌, inl, inr,
  refl, arith, ap, ◌∙◌, sym,
}
use redis_watcher.Base.Bytes.{Bytes, eq_bytes}
use redis_watcher.Base.Lists.{All}
use redis_watcher.Base.Tests.{if◌then◌else◌, Bool-cases, Option-cases}
use redis_watcher.Alert.Limiter.{Rates, active_limit, allow_key, rate_key, rate_limit_allow}
use redis_watcher.Alert.Limiter.Laws.{Request, request, passes, passes-le-double, Within}
use redis_watcher.Alert.Retry.{World}
use redis_watcher.Alert.Engine.{
  Engine, Action, dispatched, suspicious_observed, rate_limited, match, handle, contains, dispatch,
  alert_of,
}
use redis_watcher.Event.{Event}

-- An event, the instant at which it is handled, and what the channels do then.
pub record Arrival : Type 0 where
  pub event : Event
  pub time : ℕ
  pub world : Bytes → World

abbrev one_if : Bool → ℕ
one_if b = if b then 1 else 0

-- The alerts raised for a key.
unfoldable pub alerts_for : Bytes → List Action → ℕ
alerts_for k [] = 0
alerts_for k (suspicious_observed _ _ ∷ rest) = alerts_for k rest
alerts_for k (rate_limited _ ∷ rest) = alerts_for k rest
alerts_for k (dispatched a _ _ ∷ rest) = one_if (eq_bytes (rate_key a.event) k) + alerts_for k rest

-- The engine at work on a list of arrivals: the alerts that it raises for a key.
unfoldable pub raised : Bytes → Engine → List Arrival → ℕ
raised k e [] = 0
raised k e (x ∷ xs) =
    let (e', actions) = handle e x.world x.time x.event in alerts_for k actions + raised k e' xs

-- The arrivals that reach the limit, as requests to it.
unfoldable pub reaching : Engine → List Arrival → List Request
reaching e [] = []
reaching e (x ∷ xs) = elim (match e x.event) [
  | none ↦ reaching e xs
  | some _ ↦
      let rest = reaching e xs in
      if contains e.ignored_ips x.event.source.ip
      then rest
      else request (rate_key x.event) x.time ∷ rest
]

abbrev with_rates : Engine → Rates → Engine
with_rates e r = record e { rates = r }

reaching-skips :
    (e : Engine) (x : Arrival) (xs : List Arrival)
    → (match e x.event ≡ none) ⊎ (contains e.ignored_ips x.event.source.ip ≡ true)
    → reaching e (x ∷ xs) ≡ reaching e xs
unfolding reaching
reaching-skips e x xs h = ground arith

reaching-asks :
    (e : Engine) (x : Arrival) (xs : List Arrival) (reason : Bytes)
    → match e x.event ≡ some reason
    → contains e.ignored_ips x.event.source.ip ≡ false
    → reaching e (x ∷ xs) ≡ request (rate_key x.event) x.time ∷ reaching e xs
unfolding reaching
reaching-asks e x xs reason m i = ground arith

match-rates : (e : Engine) (r : Rates) (ev : Event) → match (with_rates e r) ev ≡ match e ev
unfolding match
match-rates e r ev = refl

-- What an arrival meets: it is skipped, or it asks the limit.
meets :
    (e : Engine) (ev : Event)
    → ((match e ev ≡ none) ⊎ (contains e.ignored_ips ev.source.ip ≡ true))
      ⊎ ((reason : Bytes) × (match e ev ≡ some reason)
          × (contains e.ignored_ips ev.source.ip ≡ false))
meets e ev = elim (Option-cases (match e ev)) [
  | inl missed ↦ inl (inl missed)
  | inr (reason, m) ↦ elim (Bool-cases (contains e.ignored_ips ev.source.ip)) [
    | inl ignored ↦ inl (inr ignored)
    | inr heard ↦ inr (reason, m, heard)
  ]
]

reaching-rates :
    (e : Engine) (r : Rates) (xs : List Arrival) → reaching (with_rates e r) xs ≡ reaching e xs
reaching-rates e r [] = unfold reaching in refl
reaching-rates e r (x ∷ xs) = elim (meets e x.event) [
  | inl skips ↦
      reaching-skips (with_rates e r) x xs (rw (match-rates e r x.event) skips)
      ∙ reaching-rates e r xs
      ∙ sym (reaching-skips e x xs skips)
  | inr (reason, m, i) ↦
      reaching-asks (with_rates e r) x xs reason (match-rates e r x.event ∙ m) i
      ∙ ap (◌∷◌ (request (rate_key x.event) x.time)) (reaching-rates e r xs)
      ∙ sym (reaching-asks e x xs reason m i)
]

module _ (k : Bytes) (window most : ℕ) (world : Bytes → World) (x : Arrival) where
  -- An event that does not reach the limit leaves the engine as it was and raises nothing.
  handle_skips :
      (e : Engine)
      → (match e x.event ≡ none) ⊎ (contains e.ignored_ips x.event.source.ip ≡ true)
      → handle e world x.time x.event ≡ (e, [])
  unfolding handle
  handle_skips e h = ground arith

  handle_asks :
      (e : Engine) (reason : Bytes)
      → match e x.event ≡ some reason
      → contains e.ignored_ips x.event.source.ip ≡ false
      → active_limit e.limit ≡ some (window, most)
      → let r = allow_key window most e.rates (rate_key x.event) x.time in
        ((handle e world x.time x.event).0 ≡ with_rates e r.0)
        × (alerts_for k (handle e world x.time x.event).1
            ≡ one_if (r.1 && eq_bytes (rate_key x.event) k))
  unfolding handle alerts_for dispatch alert_of rate_limit_allow
  handle_asks e reason m i l = (ground arith, ground arith)

module _ (k : Bytes) (window most : ℕ) where
  raised_cons :
      (x : Arrival) (xs : List Arrival) (e e' : Engine) (n : ℕ)
      → (handle e x.world x.time x.event).0 ≡ e'
      → alerts_for k (handle e x.world x.time x.event).1 ≡ n
      → raised k e (x ∷ xs) ≡ n + raised k e' xs
  unfolding raised
  raised_cons x xs e e' n h g = rw (h, raised) (rw g refl)

  passes_cons :
      (rates : Rates) (q : Request) (rs : List Request)
      → passes window most k rates (q ∷ rs)
        ≡ one_if ((allow_key window most rates q.key q.time).1 && eq_bytes q.key k)
          + passes window most k (allow_key window most rates q.key q.time).0 rs
  unfolding passes
  passes_cons rates q rs = refl

  -- The engine raises what the limit lets pass of the arrivals that reach it.
  raised-eq-passes :
      (xs : List Arrival) (e : Engine)
      → active_limit e.limit ≡ some (window, most)
      → raised k e xs ≡ passes window most k e.rates (reaching e xs)
  raised-eq-passes [] e l = unfold raised reaching passes in refl
  raised-eq-passes (x ∷ xs) e l = elim (meets e x.event) [
    | inl skips ↦
        let h = handle_skips k window most x.world x e skips in
        let now =
          raised_cons x xs e e 0 (ap (λ p. p.0) h)
            (ap (λ p. alerts_for k p.1) h ∙ unfold alerts_for in refl) in
        let ih = raised-eq-passes xs e l in
        rw (reaching-skips e x xs skips) (omega (arith, now, ih))
    | inr (reason, m, i) ↦
        let r = allow_key window most e.rates (rate_key x.event) x.time in
        let (h, n) = handle_asks k window most x.world x e reason m i l in
        let ih = raised-eq-passes xs (with_rates e r.0) l in
        rw (reaching-asks e x xs reason m i) (
          raised_cons x xs e (with_rates e r.0) _ h n
          ∙ ap (λ t. one_if (r.1 && eq_bytes (rate_key x.event) k) + t)
              (ih ∙ ap (passes window most k r.0) (reaching-rates e r.0 xs))
          ∙ sym (passes_cons e.rates (request (rate_key x.event) x.time) (reaching e xs)))
  ]

  Within-reaching :
      (lo : ℕ) (e : Engine) (xs : List Arrival)
      → All (λ x. (lo ≤ x.time) × (x.time ≤ lo + window)) xs
      → Within window most lo (reaching e xs)
  Within-reaching lo e [] h = unfold reaching in tt
  Within-reaching lo e (x ∷ xs) (h, hs) = elim (meets e x.event) [
    | inl skips ↦ rw (reaching-skips e x xs skips) (Within-reaching lo e xs hs)
    | inr (reason, m, i) ↦ rw (reaching-asks e x xs reason m i) (h, Within-reaching lo e xs hs)
  ]

  -- With the limit on, and whatever events arrive in whatever order: among the arrivals whose
  -- instants lie within one window's length, an engine raises at most twice the limit of alerts
  -- for one command and source address.
  pub raised-le :
      (xs : List Arrival) (e : Engine) (lo : ℕ)
      → active_limit e.limit ≡ some (window, most)
      → 0 < most
      → All (λ x. (lo ≤ x.time) × (x.time ≤ lo + window)) xs
      → raised k e xs ≤ 2 * most
  raised-le xs e lo l m h =
      rw (raised-eq-passes xs e l)
        (passes-le-double window most k (reaching e xs) e.rates lo m (Within-reaching lo e xs h))
