-- ===== src/Alert/Engine/Laws.antt =====
-- What the engine does with an event, on every path.
use redis_watcher.Base.{
  ℕ, true, false, List, [], ◌∷◌, ◌++◌, map, Option, none, some, ◌≡◌, ◌↔◌, ◌⊎◌, inl, inr, refl,
  arith, ap, ◌∙◌, sym,
}
use redis_watcher.Base.Bytes.{Bytes, codes, is_empty}
use redis_watcher.Base.Lists.{All}
use redis_watcher.Base.Tests.{if◌then◌else◌, Bool-cases, Option-cases}
use redis_watcher.Alert.Limiter.{rate_limit_allow}
use redis_watcher.Alert.Retry.{SendError, RetryPolicy, World, send_one}
use redis_watcher.Alert.Engine.{
  Pattern, Engine, Action, Sent, alert_of, dispatched, suspicious_observed, rate_limited, match,
  handle, contains, dispatch, send_all, first_error, first_match,
}
use redis_watcher.Event.{Event, full_command, command_line}

-- The alerts among the actions.
unfoldable pub alerts : List Action → List Action
alerts [] = []
alerts (suspicious_observed _ _ ∷ rest) = alerts rest
alerts (rate_limited _ ∷ rest) = alerts rest
alerts (dispatched a s e ∷ rest) = dispatched a s e ∷ alerts rest

module _ (e : Engine) (world : Bytes → World) (now : ℕ) (ev : Event) where
  -- The three tests that an event has to pass.
  abbrev pub Fires : Bytes → Type 0
  Fires reason =
      (match e ev ≡ some reason)
      × (contains e.ignored_ips ev.source.ip ≡ false)
      × ((rate_limit_allow e.limit e.rates ev now).1 ≡ true)

  alerts-Fires :
      (reason : Bytes)
      → Fires reason
      → alerts (handle e world now ev).1 ≡ dispatch e world ev reason ∷ []
  unfolding handle alerts dispatch
  alerts-Fires reason (m, i, a) = ground arith

-- A rule matches.
first_match-none :
    (ps : List Pattern) (line : Bytes)
    → (first_match ps line ≡ none) ↔ All (λ p. p.match_string line ≡ false) ps
unfolding first_match
first_match-none [] line = (λ h. tt, λ h. refl)
first_match-none (p ∷ ps) line = elim (Bool-cases (p.match_string line)) [
  | inl yes' ↦ (λ h. ground arith, λ h. ground arith)
  | inr no' ↦ (
    λ h. (no', (first_match-none ps line).0 (rw no' at h)),
    λ h. rw no' ((first_match-none ps line).1 h.1),
  )
]

skip_empty :
    (ps : List Pattern) (line : Bytes)
    → (if is_empty ps then none else first_match ps line) ≡ first_match ps line
unfolding first_match
skip_empty [] line = refl
skip_empty (p ∷ ps) line = refl

-- No rule matches an event exactly when its command name is not listed and no pattern matches the
-- command line that is rebuilt from all its arguments.
pub match-none_iff :
    (e : Engine) (ev : Event)
    → (match e ev ≡ none) ↔ (
        (contains e.commands ev.command ≡ false)
        × All (λ p. p.match_string (command_line ev) ≡ false) e.patterns)
unfolding match
match-none_iff e ev =
    let line = command_line ev in
    elim (Bool-cases (contains e.commands ev.command)) [
      | inl listed ↦ (λ h. ground arith, λ h. ground arith)
      | inr other ↦ (
        λ h. (
          other,
          (first_match-none e.patterns line).0 (sym (skip_empty e.patterns line) ∙ rw other at h),
        ),
        λ h. rw other (skip_empty e.patterns line ∙ (first_match-none e.patterns line).1 h.1),
      )
    ]

abbrev pub channel_of : Sent → Bytes
channel_of s = s.channel

-- Every channel gets the alert, in the order of the configuration and with its own retries,
-- whatever the others did; the transaction is finished without an error exactly when every
-- channel ended without one.
pub send_all_lem :
    (p : RetryPolicy) (world : Bytes → World) (chs : List Bytes)
    → (map channel_of (send_all p world chs) ≡ chs)
      × All (λ s. (s.effects, s.error) ≡ send_one p (world s.channel)) (send_all p world chs)
      × ((first_error (send_all p world chs) ≡ none)
          ↔ All (λ ch. (send_one p (world ch)).1 ≡ none) chs)
unfolding send_all first_error
send_all_lem p world [] = (refl, tt, (λ h. tt, λ h. refl))
send_all_lem p world (ch ∷ chs) =
    let (m, a, f) = send_all_lem p world chs in
    (
      ap (◌∷◌ ch) m,
      (refl, a),
      elim (Option-cases (send_one p (world ch)).1) [
        | inl works ↦ rw works ((λ h. (refl, f.0 h)), (λ h. f.1 h.1))
        | inr (e, fails) ↦ rw fails ((λ h. cc), (λ h. cc (h.0)))
      ],
    )

-- The first pattern that matches a line gives the reason.
abbrev pub FirstPattern : List Pattern → Bytes → Bytes → Type 0
FirstPattern [] line reason = ⊥
FirstPattern (p ∷ ps) line reason =
    ((p.match_string line ≡ true) × (reason ≡ codes "pattern match: " ++ p.text))
    ⊎ ((p.match_string line ≡ false) × FirstPattern ps line reason)

-- A rule matches an event and gives the reason: its command is listed, or else a pattern matches.
abbrev pub Rule : Engine → Event → Bytes → Type 0
Rule e ev reason =
    ((contains e.commands ev.command ≡ true)
      × (reason ≡ codes "suspicious command: " ++ full_command ev))
    ⊎ ((contains e.commands ev.command ≡ false) × FirstPattern e.patterns (command_line ev) reason)

first_match-FirstPattern :
    (ps : List Pattern) (line reason : Bytes)
    → first_match ps line ≡ some reason
    → FirstPattern ps line reason
unfolding first_match
first_match-FirstPattern [] line reason h = absurd (ground arith)
first_match-FirstPattern (p ∷ ps) line reason h = elim (Bool-cases (p.match_string line)) [
  | inl yes' ↦ inl (yes', ground arith)
  | inr no' ↦ inr (no', first_match-FirstPattern ps line reason (rw no' at h))
]

FirstPattern-none :
    (ps : List Pattern) (line reason : Bytes)
    → All (λ p. p.match_string line ≡ false) ps
    → FirstPattern ps line reason
    → ⊥
FirstPattern-none [] line reason h k = k
FirstPattern-none (p ∷ ps) line reason h (inl (hit, same)) = absurd (cc)
FirstPattern-none (p ∷ ps) line reason h (inr (miss, k)) = FirstPattern-none ps line reason h.1 k

match-Rule :
    (e : Engine) (ev : Event) (reason : Bytes) → match e ev ≡ some reason → Rule e ev reason
unfolding match
match-Rule e ev reason h = elim (Bool-cases (contains e.commands ev.command)) [
  | inl listed ↦ inl (listed, ground arith)
  | inr other ↦ inr (
    other,
    first_match-FirstPattern e.patterns (command_line ev) reason
        (sym (skip_empty e.patterns (command_line ev)) ∙ rw other at h),
  )
]

Rule-none : (e : Engine) (ev : Event) (reason : Bytes) → match e ev ≡ none → Rule e ev reason → ⊥
Rule-none e ev reason h (inl (listed, same)) = let (other, no') = (match-none_iff e ev).0 h in cc
Rule-none e ev reason h (inr (other, k)) =
    FirstPattern-none e.patterns (command_line ev) reason ((match-none_iff e ev).0 h).1 k

module _ (e : Engine) (world : Bytes → World) (now : ℕ) (ev : Event) where
  -- One alert for the event, with a rule's reason, each channel of the engine in order with its own
  -- delivery, and an error exactly where a delivery ended with one.
  abbrev pub Raises : Type 0
  Raises =
      (reason : Bytes) × (sent : List Sent) × (failure : Option SendError) × Rule e ev reason
      × (contains e.ignored_ips ev.source.ip ≡ false)
      × ((rate_limit_allow e.limit e.rates ev now).1 ≡ true)
      × (alerts (handle e world now ev).1 ≡ dispatched (alert_of ev reason) sent failure ∷ [])
      × (map channel_of sent ≡ e.channels)
      × All (λ s. (s.effects, s.error) ≡ send_one e.policy (world s.channel)) sent
      × ((failure ≡ none) ↔ All (λ ch. (send_one e.policy (world ch)).1 ≡ none) e.channels)

  -- No alert, and why.
  abbrev pub Silent : Type 0
  Silent =
      (alerts (handle e world now ev).1 ≡ [])
      × (((reason : Bytes) → Rule e ev reason → ⊥)
          ⊎ ((contains e.ignored_ips ev.source.ip ≡ true)
              ⊎ ((rate_limit_allow e.limit e.rates ev now).1 ≡ false)))

  quiet : match e ev ≡ none → alerts (handle e world now ev).1 ≡ []
  unfolding handle alerts
  quiet missed = ground arith

  skips :
      (reason : Bytes)
      → match e ev ≡ some reason
      → contains e.ignored_ips ev.source.ip ≡ true
      → alerts (handle e world now ev).1 ≡ []
  unfolding handle alerts
  skips reason hit skipped = ground arith

  stops :
      (reason : Bytes)
      → match e ev ≡ some reason
      → contains e.ignored_ips ev.source.ip ≡ false
      → (rate_limit_allow e.limit e.rates ev now).1 ≡ false
      → alerts (handle e world now ev).1 ≡ []
  unfolding handle alerts
  stops reason hit seen stopped = ground arith

  -- An event raises an alert where a rule matches it, its source is not on the list of ignored
  -- addresses, and the limit lets it pass, and none where one of these fails. The alert is then the
  -- only one and carries the reason of the rule: that its command is listed, or else the first
  -- pattern that matches its command line. It is sent to each of the engine's channels, in order
  -- and with its own retries, and ends with an error exactly when one of these deliveries does.
  pub handle_cases : Raises ⊎ Silent
  handle_cases = elim (Option-cases (match e ev)) [
    | inl missed ↦ inr (quiet missed, inl (λ reason. Rule-none e ev reason missed))
    | inr (reason, hit) ↦ elim (Bool-cases (contains e.ignored_ips ev.source.ip)) [
      | inl skipped ↦ inr (skips reason hit skipped, inr (inl skipped))
      | inr seen ↦ elim (Bool-cases (rate_limit_allow e.limit e.rates ev now).1) [
        | inr stopped ↦ inr (stops reason hit seen stopped, inr (inr stopped))
        | inl passes ↦
            let (names, each, whole) = send_all_lem e.policy world e.channels in
            inl (
              reason,
              send_all e.policy world e.channels,
              first_error (send_all e.policy world e.channels),
              match-Rule e ev reason hit,
              seen,
              passes,
              unfold dispatch in alerts-Fires e world now ev reason (hit, seen, passes),
              names,
              each,
              whole,
            )
      ]
    ]
  ]
