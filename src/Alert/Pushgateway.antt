-- ===== src/Alert/Pushgateway.antt =====
-- internal/alert/pushgateway.go: the Pushgateway channel. The pushes run in parallel: the errors are
-- those of the pushes in the order in which they end, which is given. Registering the counter and
-- pushing are the Prometheus client's.
use redis_watcher.Base.{
  ℕ, suc, ◌+◌, ◌<◌, ◌&&◌, Bool, true, false, not, ◌||◌, List, [], ◌∷◌, map, Option, none, some, ◌≡◌,
  ◌↔◌, refl, arith, ap, ◌∙◌, sym, inl, inr,
}
use mathlib.Core.Quot
use mathlib.Core.Quot.{Quot}
use redis_watcher.Base.Bytes.{Bytes, is_empty, eq_bytes}
use redis_watcher.Base.Lists.{length, All}
use redis_watcher.Base.Results.{Result, ok, err}
use redis_watcher.Base.Tests.{if◌then◌else◌, Bool-cases}
use redis_watcher.Alert.Engine.{Alert, alert_of}
use redis_watcher.Event.{Event}
use redis_watcher.Go.Int.{ℤ, pos, default_time}
use redis_watcher.Go.Text.{cut_last, Lacks, cut_last_at}

pub record PushgatewayOptions : Type 0 where
  pub urls : List Bytes
  pub job : Bytes
  pub username : Bytes
  pub password : Bytes
  pub labels : List (Bytes × Bytes)
  pub timeout : ℤ

-- `NewPushgatewayChannel`; the channel has the fields of its options.
unfoldable pub new_pushgateway : PushgatewayOptions → PushgatewayOptions
new_pushgateway o = record o { timeout = default_time o.timeout (pos 5_000_000_000) }

-- `sourceIP`
unfoldable pub source_ip : Bytes → Bytes
source_ip source = elim (cut_last b':' source) [ none ↦ source | some (ip, _) ↦ ip ]

-- One push: where it goes, with the counter's label values.
pub record Push : Type 0 where
  pub url : Bytes
  pub job : Bytes
  pub basic_auth : Option (Bytes × Bytes)
  pub grouping : List (Bytes × Bytes)
  pub values : List Bytes

unfoldable pub push_to : PushgatewayOptions → Alert → Bytes → Push
push_to p a url = record {
  url = url;
  job = p.job;
  basic_auth =
      if not (is_empty p.username) || not (is_empty p.password)
      then some (p.username, p.password)
      else none;
  grouping = p.labels;
  values = a.command ∷ source_ip a.source ∷ a.reason ∷ [];
}

pub data PushError : Type 0 where
  no_urls : PushError
  not_registered : Bytes → PushError
  targets_failed : ℕ → ℕ → List (Bytes × Bytes) → PushError

-- A push that ended, with its error where there is one.
abbrev pub Ended : Type 0
Ended = Push × Option Bytes

-- The errors as they are appended.
unfoldable pub errors_of : List Ended → List (Bytes × Bytes)
errors_of [] = []
errors_of ((p, none) ∷ ended) = errors_of ended
errors_of ((p, some e) ∷ ended) = (p.url, e) ∷ errors_of ended

-- The pushes that `Send` starts.
abbrev pub pushes : PushgatewayOptions → Alert → List Push
pushes p a = map (push_to p a) p.urls

-- The result of the errors, with the number of URLs.
unfoldable pub aggregate : ℕ → List (Bytes × Bytes) → Result PushError (Unit {0})
aggregate n [] = ok tt
aggregate n (e ∷ es) = err (targets_failed (length (e ∷ es)) n (e ∷ es))

-- `Send`: the error of registering the counter, and the pushes in the order in which they ended.
unfoldable pub pushgateway_send :
    PushgatewayOptions → Option Bytes → List Ended → Result PushError (Unit {0})
unfolding aggregate
pushgateway_send p registered ended = if is_empty p.urls then err no_urls else elim registered [
  | some e ↦ err (not_registered e)
  | none ↦ aggregate (length p.urls) (errors_of ended)
]

module _ {ℓ} {A : Type ℓ} where
  abbrev pub count : (A → Bool) → List A → ℕ
  count f [] = 0
  count f (x ∷ xs) = (if f x then 1 else 0) + count f xs

  -- The same items, as often.
  abbrev pub SameItems : List A → List A → Type ℓ
  SameItems xs ys = (f : A → Bool) → count f xs ≡ count f ys

  length-count : (xs : List A) → length xs ≡ count (λ _. true) xs
  length-count [] = refl
  length-count (x ∷ xs) = omega (arith, length-count xs)

abbrev failed_with : (Bytes × Bytes → Bool) → Ended → Bool
failed_with f (p, none) = false
failed_with f (p, some e) = f (p.url, e)

count-errors_of :
    (f : Bytes × Bytes → Bool) (ended : List Ended)
    → count f (errors_of ended) ≡ count (failed_with f) ended
unfolding errors_of
count-errors_of f [] = refl
count-errors_of f ((p, none) ∷ ended) = omega (arith, count-errors_of f ended)
count-errors_of f ((p, some e) ∷ ended) = ap (◌+◌ _) (count-errors_of f ended)

errors_of-SameItems :
    (ended ended' : List Ended)
    → SameItems ended ended'
    → SameItems (errors_of ended) (errors_of ended')
errors_of-SameItems ended ended' same f =
    count-errors_of f ended ∙ same (failed_with f) ∙ sym (count-errors_of f ended')

-- The result without the order of the errors: a quotient of the lists.
pub data Seen : Type 0 where
  no_urls_seen : Seen
  not_registered_seen : Bytes → Seen
  succeeded : Seen
  failed : ℕ → ℕ → Quot {α = List (Bytes × Bytes)} SameItems → Seen

unfoldable pub forget : Result PushError (Unit {0}) → Seen
forget (ok _) = succeeded
forget (err no_urls) = no_urls_seen
forget (err (not_registered e)) = not_registered_seen e
forget (err (targets_failed n m es)) = failed n m (Quot.mk es)

forget-aggregate :
    (n : ℕ) (es es' : List (Bytes × Bytes))
    → SameItems es es'
    → forget (aggregate n es) ≡ forget (aggregate n es')
unfolding forget aggregate
forget-aggregate n [] [] same = refl
forget-aggregate n [] (e ∷ es) same = absurd (omega (arith, same (λ _. true)))
forget-aggregate n (e ∷ es) [] same = absurd (omega (arith, same (λ _. true)))
forget-aggregate n (e ∷ es) (e' ∷ es') same =
    ap (λ m. failed m n (Quot.mk (e ∷ es)))
      (length-count (e ∷ es) ∙ same (λ _. true) ∙ sym (length-count (e' ∷ es')))
    ∙ ap (failed (length (e' ∷ es')) n) (Quot.sound same)

pushgateway_send-forget :
    (p : PushgatewayOptions) (registered : Option Bytes) (ended ended' : List Ended)
    → SameItems ended ended'
    → forget (pushgateway_send p registered ended) ≡ forget (pushgateway_send p registered ended')
unfolding pushgateway_send
pushgateway_send-forget p (some e) ended ended' same = refl
pushgateway_send-forget p none ended ended' same = elim (Bool-cases (is_empty p.urls)) [
  | inl nowhere ↦ rw nowhere refl
  | inr urls ↦ rw urls (
      forget-aggregate (length p.urls) (errors_of ended) (errors_of ended')
        (errors_of-SameItems ended ended' same))
]

aggregate_iff :
    (n : ℕ) (ended : List Ended)
    → (aggregate n (errors_of ended) ≡ ok tt) ↔ All (λ e. e.1 ≡ none) ended
unfolding aggregate errors_of
aggregate_iff n [] = (λ h. tt, λ h. refl)
aggregate_iff n ((p, none) ∷ ended) =
    (λ h. (refl, (aggregate_iff n ended).0 h), λ h. (aggregate_iff n ended).1 h.1)
aggregate_iff n ((p, some e) ∷ ended) = (λ h. absurd (ground arith), λ h. absurd (clash h.0))
  where
    clash : ◌≡◌ {A = Option Bytes} (some e) none → ⊥
    clash k = cc

-- Sending succeeds exactly when there is a URL, the counter is registered, and every push ended
-- without an error.
pub pushgateway_send_iff :
    (p : PushgatewayOptions) (registered : Option Bytes) (ended : List Ended)
    → (pushgateway_send p registered ended ≡ ok tt)
      ↔ ((is_empty p.urls ≡ false) × (registered ≡ none) × All (λ e. e.1 ≡ none) ended)
unfolding pushgateway_send
pushgateway_send_iff p (some e) ended = (λ h. absurd (ground arith), λ h. absurd (clash h.1))
  where
    clash : ◌≡◌ {A = Option Bytes} (some e) none → ⊥
    clash k = cc
pushgateway_send_iff p none ended = elim (Bool-cases (is_empty p.urls)) [
  | inl nowhere ↦ (λ h. absurd (ground arith), λ h. absurd (ground arith))
  | inr urls ↦ rw urls (
    λ h. (refl, refl, (aggregate_iff (length p.urls) ended).0 h),
    λ h. (aggregate_iff (length p.urls) ended).1 h.2,
  )
]

-- What a push ended with.
abbrev pub worked : Ended → Bool
worked (p, none) = true
worked (p, some e) = false

-- The error that a push to a URL ended with.
abbrev pub error_at : Bytes → Bytes → Ended → Bool
error_at url e (p, none) = false
error_at url e (p, some x) = eq_bytes url p.url && eq_bytes e x

length-errors_of :
    (ended : List Ended) → length (errors_of ended) + count worked ended ≡ length ended
unfolding errors_of
length-errors_of [] = refl
length-errors_of ((p, none) ∷ ended) = omega (arith, length-errors_of ended)
length-errors_of ((p, some e) ∷ ended) = omega (arith, length-errors_of ended)

length-map : {A B : Type 0} (f : A → B) (xs : List A) → length (map f xs) ≡ length xs
length-map f [] = refl
length-map f (x ∷ xs) = ap suc (length-map f xs)

-- As many pushes end as there are URLs.
length-pushes :
    (p : PushgatewayOptions) (a : Alert) (ended : List Ended)
    → SameItems (map (λ e. e.0) ended) (pushes p a)
    → length ended ≡ length p.urls
length-pushes p a ended same =
    sym (length-map (λ e. e.0) ended)
    ∙ length-count (map (λ e. e.0) ended)
    ∙ same (λ _. true)
    ∙ sym (length-count (pushes p a))
    ∙ length-map (push_to p a) p.urls

errors_of-error_at :
    (url e : Bytes) (ended : List Ended)
    → count (λ x. eq_bytes url x.0 && eq_bytes e x.1) (errors_of ended)
      ≡ count (error_at url e) ended
unfolding errors_of
errors_of-error_at url e [] = refl
errors_of-error_at url e ((p, none) ∷ ended) = omega (arith, errors_of-error_at url e ended)
errors_of-error_at url e ((p, some x) ∷ ended) = ap (◌+◌ _) (errors_of-error_at url e ended)

-- The result of `Send` in terms of the pushes: every URL's push worked, or an error that lists those
-- that did not.
abbrev pub Verdict : PushgatewayOptions → List Ended → Result PushError (Unit {0}) → Type 0
Verdict p ended (ok _) = count worked ended ≡ length p.urls
Verdict p ended (err no_urls) = ⊥
Verdict p ended (err (not_registered e)) = ⊥
Verdict p ended (err (targets_failed n m es)) =
    (m ≡ length p.urls)
    × (n + count worked ended ≡ m)
    × (0 < n)
    × (length es ≡ n)
    × ((url e : Bytes)
        → count (λ x. eq_bytes url x.0 && eq_bytes e x.1) es ≡ count (error_at url e) ended)

aggregate-Verdict :
    (p : PushgatewayOptions) (ended : List Ended) (es : List (Bytes × Bytes))
    → es ≡ errors_of ended
    → length ended ≡ length p.urls
    → Verdict p ended (aggregate (length p.urls) es)
unfolding aggregate
aggregate-Verdict p ended [] same all = omega (arith, length-errors_of ended, ap length same, all)
aggregate-Verdict p ended (e ∷ es) same all = (
  refl,
  omega (arith, length-errors_of ended, ap length same, all),
  omega arith,
  refl,
  λ url x.
      ap (count (λ y. eq_bytes url y.0 && eq_bytes x y.1)) same ∙ errors_of-error_at url x ended,
)

-- Where there is a URL and the counter is registered, and the push to each URL has ended once, in
-- whatever order: `Send` returns no error exactly when the pushes to all URLs worked; its error
-- otherwise gives the number of URLs and the number, which is not zero, of those whose push failed,
-- and lists each URL with each error as often as a push to it ended with that error.
pub pushgateway_send-pushes :
    (p : PushgatewayOptions) (a : Alert) (ended : List Ended)
    → is_empty p.urls ≡ false
    → SameItems (map (λ e. e.0) ended) (pushes p a)
    → Verdict p ended (pushgateway_send p none ended)
unfolding pushgateway_send
pushgateway_send-pushes p a ended some_url same =
    rw some_url (aggregate-Verdict p ended (errors_of ended) refl (length-pushes p a ended same))

-- The address that the pushed counter is labelled with is the client's, as the event has it, where
-- its port has no colon.
pub source_ip-alert_of :
    (ev : Event) (reason : Bytes)
    → Lacks b':' ev.source.port
    → source_ip (alert_of ev reason).source ≡ ev.source.ip
unfolding source_ip alert_of
source_ip-alert_of ev reason h = rw (cut_last_at b':' ev.source.ip ev.source.port h, source_ip) refl
