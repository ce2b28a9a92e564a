-- ===== src/Sentry.antt =====
-- internal/sentryx/sentryx.go: the wrapper of the Sentry SDK. The SDK is a library: what the wrapper
-- hands to it is kept, and what `sentry.Init` answers is given. The two sampling rates, which are
-- floating-point numbers, are left out.
mod Examples
use redis_watcher.Base.{
  Bool, true, false, not, ◌&&◌, ◌||◌, List, [], ◌∷◌, ◌++◌, Option, none, some, ◌≡◌, ◌↔◌, refl,
  arith, inl, inr, ap, ◌∙◌, sym,
}
use redis_watcher.Base.Bytes.{Bytes, codes, is_empty, eq_bytes}
use redis_watcher.Base.Dict.{lookup, insert, lookup-insert}
use redis_watcher.Base.Results.{Result, ok, err}
use redis_watcher.Base.Tests.{if◌then◌else◌, Bool-cases}
use redis_watcher.Config.{SentryConfig}
use redis_watcher.Config.Validate.{validate_sentry, refuse}

pub data SentryError : Type 0 where
  no_dsn : SentryError
  sdk_failed : Bytes → SentryError

-- `sentry.ClientOptions` as `Init` fills it.
pub record ClientOptions : Type 0 where
  pub dsn : Bytes
  pub environment : Bytes
  pub release : Bytes
  pub attach_stacktrace : Bool
  pub server_name : Bytes

unfoldable pub client_options : SentryConfig → Bytes → ClientOptions
client_options cfg version = record {
  dsn = cfg.dsn;
  environment = cfg.environment;
  release =
      if is_empty cfg.release && not (is_empty version)
      then codes "redis-watcher@" ++ version
      else cfg.release;
  attach_stacktrace = cfg.attach_stacktrace;
  server_name = codes "redis-watcher";
}

-- `Init`; `none` where Sentry is off, else the options that the SDK accepted.
unfoldable pub init :
    (ClientOptions → Option Bytes)
    → SentryConfig
    → Bytes
    → Result SentryError (Option ClientOptions)
init sdk cfg version =
    if not cfg.enabled
    then ok none
    else if is_empty cfg.dsn
    then err no_dsn
    else let opts = client_options cfg version in
      elim (sdk opts) [ some e ↦ err (sdk_failed e) | none ↦ ok (some opts) ]

-- A value among the pairs of `Capture`: a string, or anything else.
pub data Value : Type 0 where
  text : Bytes → Value
  other : Bytes → Value

-- The loop over the pairs: a key that is no string is skipped with its value, and so is a last
-- value alone.
unfoldable pub details_of : List (Bytes × Value) → List Value → List (Bytes × Value)
details_of details (text k ∷ v ∷ kv) = details_of (insert k v details) kv
details_of details (other k ∷ v ∷ kv) = details_of details kv
details_of details _ = details

-- What reaches the SDK: the error with its details, where there are any.
pub record Captured : Type 0 where
  pub error : Bytes
  pub details : Option (List (Bytes × Value))

-- `Capture` on a hub, given by its client's data source name where it has a client.
unfoldable pub capture : Option Bytes → Option Bytes → List Value → Option Captured
unfolding details_of
capture hub none kv = none
capture none (some e) kv = none
capture (some dsn) (some e) kv =
    let details = details_of [] kv in
    if is_empty dsn
    then none
    else some (record { error = e; details = if is_empty details then none else some details })

-- `Enabled`
unfoldable pub enabled : Option Bytes → Bool
enabled none = false
enabled (some dsn) = not (is_empty dsn)

-- `WrapHTTP`, with the SDK's wrapper of a handler.
unfoldable pub wrap_http {ℓ} : {H : Type ℓ} → Option Bytes → (H → H) → H → H
unfolding enabled
wrap_http hub handle h = if enabled hub then handle h else h

-- An error is reported exactly when Sentry is enabled.
capture-enabled :
    (hub : Option Bytes) (e : Bytes) (kv : List Value)
    → (capture hub (some e) kv ≡ none) ↔ (enabled hub ≡ false)
unfolding capture enabled
capture-enabled none e kv = (λ h. refl, λ h. refl)
capture-enabled (some dsn) e kv = (λ h. ground arith, λ h. ground arith)

-- Pairs whose keys are all strings.
abbrev pub flat : List (Bytes × Value) → List Value
flat [] = []
flat ((k, v) ∷ pairs) = text k ∷ v ∷ flat pairs

-- The value of the last pair with a key, or the one at hand.
abbrev pub last_pair : Bytes → Option Value → List (Bytes × Value) → Option Value
last_pair k w [] = w
last_pair k w ((j, v) ∷ pairs) = last_pair k (if eq_bytes j k then some v else w) pairs

details_of-flat :
    (k : Bytes) (details pairs : List (Bytes × Value))
    → lookup k (details_of details (flat pairs)) ≡ last_pair k (lookup k details) pairs
unfolding details_of
details_of-flat k details [] = refl
details_of-flat k details ((j, v) ∷ pairs) =
    details_of-flat k (insert j v details) pairs
    ∙ ap (λ w. last_pair k w pairs) (lookup-insert j k v details)

-- The details that a report shows.
abbrev pub shown : Bytes → Option Captured → Option Value
shown k none = none
shown k (some c) = elim c.details [ none ↦ none | some details ↦ lookup k details ]

shown-details :
    (k e : Bytes) (details : List (Bytes × Value))
    → shown k (some record { error = e; details = if is_empty details then none else some details })
      ≡ lookup k details
unfolding lookup
shown-details k e [] = refl
shown-details k e (d ∷ details) = refl

-- A report with key and value pairs, on a hub with a data source name, shows for each key the value
-- of its last pair, and for no other key a value; on a hub without a client or a name nothing is
-- reported.
pub capture-flat :
    (dsn e k : Bytes) (pairs : List (Bytes × Value))
    → (shown k (capture (some dsn) (some e) (flat pairs))
        ≡ (if is_empty dsn then none else last_pair k none pairs))
      × (capture none (some e) (flat pairs) ≡ none)
unfolding capture
capture-flat dsn e k pairs = elim (Bool-cases (is_empty dsn)) [
  | inl off ↦ rw off (refl, refl)
  | inr on ↦ rw on (
    shown-details k e (details_of [] (flat pairs))
        ∙ details_of-flat k [] pairs
        ∙ unfold lookup in refl,
    refl,
  )
]

validate_sentry-dsn :
    (s s' : SentryConfig) → validate_sentry s ≡ ok s' → (s'.enabled && is_empty s'.dsn) ≡ false
unfolding validate_sentry
validate_sentry-dsn s s' h = ground arith

-- With a validated configuration `Init` never misses the data source name: Sentry is off where it is
-- not enabled, and otherwise the SDK decides on the options.
pub init-validate_sentry :
    (sdk : ClientOptions → Option Bytes) (s s' : SentryConfig) (version : Bytes)
    → validate_sentry s ≡ ok s'
    → init sdk s' version ≡ (
        if s'.enabled
        then elim (sdk (client_options s' version)) [
          | some e ↦ err (sdk_failed e)
          | none ↦ ok (some (client_options s' version))
        ]
        else ok none)
unfolding init
init-validate_sentry sdk s s' version h = elim (Bool-cases s'.enabled) [
  | inr off ↦ rw (off, init) refl
  | inl on ↦ rw (on, dsn on, init) refl
]
  where
    dsn : s'.enabled ≡ true → is_empty s'.dsn ≡ false
    dsn on = ground (arith, validate_sentry-dsn s s' h)
