-- ===== src/Alert/Http.antt =====
-- The exchange that ends `Send` of internal/alert/telegram.go and webhook.go: the request is built,
-- sent, and judged by its status. Package net/http is given by two functions.
use redis_watcher.Base.{
  ℕ, ◌/◌, ◌≤◌, ◌<◌, true, List, [], ◌∷◌, Option, none, some, ◌≡◌, ◌↔◌, refl, arith,
}
use mathlib.Core.Path.{subst}
use redis_watcher.Base.Bytes.{Bytes}
use redis_watcher.Base.Lists.{take}
use redis_watcher.Base.Results.{Result, ok, err}
use redis_watcher.Base.Tests.{◌==◌, if◌then◌else◌}

-- The headers by canonical name.
pub record Request : Type 0 where
  pub method : Bytes
  pub url : Bytes
  pub headers : List (Bytes × Bytes)
  pub body : Bytes

pub record Response : Type 0 where
  pub status : ℕ
  pub body : Bytes

-- Package net/http: the error of `NewRequestWithContext` for a method and a URL, and `Client.Do`.
pub record Http : Type 0 where
  pub new_request : Bytes → Bytes → Option Bytes
  pub do_request : Request → Result Bytes Response

pub data ChannelError : Type 0 where
  marshal_failed : Bytes → ChannelError
  bad_request : Bytes → ChannelError
  no_answer : Bytes → ChannelError
  bad_status : ℕ → Bytes → ChannelError

-- What `Do` returned, with the number of bytes of the body that an error shows.
unfoldable pub judge : ℕ → Result Bytes Response → Result ChannelError (Unit {0})
judge limit (err e) = err (no_answer e)
judge limit (ok r) =
    if r.status / 100 == 2 then ok tt else err (bad_status r.status (take limit r.body))

-- The result with the requests that were sent.
abbrev pub Sent : Type 0
Sent = Result ChannelError (Unit {0}) × List Request

-- The request is sent unless it could not be built.
unfoldable pub send_built : Option Bytes → Http → ℕ → Request → Sent
unfolding judge
send_built (some e) h limit req = (err (bad_request e), [])
send_built none h limit req = (judge limit (h.do_request req), req ∷ [])

unfoldable pub exchange : Http → ℕ → Request → Sent
unfolding send_built
exchange h limit req = send_built (h.new_request req.method req.url) h limit req

unfoldable pub after_marshal : Http → ℕ → (Bytes → Request) → Result Bytes Bytes → Sent
unfolding exchange
after_marshal h limit request (err e) = (err (marshal_failed e), [])
after_marshal h limit request (ok body) = exchange h limit (request body)

-- The answer has a status of the class 2xx.
abbrev pub Success : Result Bytes Response → Type 0
Success answer = (r : Response) × (answer ≡ ok r) × (200 ≤ r.status) × (r.status < 300)

-- The request can be built, and is answered with success.
abbrev pub Accepts : Http → Request → Type 0
Accepts h req = (h.new_request req.method req.url ≡ none) × Success (h.do_request req)

status-range : (n : ℕ) → (n / 100 == 2) ≡ true → (200 ≤ n) × (n < 300)
status-range n h = (ground arith, ground arith)

range-status : (n : ℕ) → 200 ≤ n → n < 300 → (n / 100 == 2) ≡ true
range-status n low high = ground arith

judge_iff :
    (limit : ℕ) (answer : Result Bytes Response) → (judge limit answer ≡ ok tt) ↔ Success answer
unfolding judge
judge_iff limit (err e) = (λ h. absurd (ground arith), λ (r, h, low, high). absurd (clash r h))
  where
    clash : (r : Response) → ◌≡◌ {A = Result Bytes Response} (err e) (ok r) → ⊥
    clash r h = cc
judge_iff limit (ok r) = (
  λ h. let (low, high) = status-range r.status (ground arith) in (r, refl, low, high),
  λ (r', h, low, high). passes r' h low high,
)
  where
    passes :
        (r' : Response)
        → ◌≡◌ {A = Result Bytes Response} (ok r) (ok r')
        → 200 ≤ r'.status
        → r'.status < 300
        → judge limit (ok r) ≡ ok tt
    passes r' h low high =
        let e : r' ≡ r = cc in
        rw
          (range-status r.status (subst (λ x. 200 ≤ x.status) e low)
            (subst (λ x. x.status < 300) e high))
          refl

send_built_iff :
    (o : Option Bytes) (h : Http) (limit : ℕ) (req : Request)
    → ((send_built o h limit req).0 ≡ ok tt) ↔ ((o ≡ none) × Success (h.do_request req))
unfolding send_built
send_built_iff none h limit req = (
  λ e. (refl, (judge_iff limit (h.do_request req)).0 e),
  λ (_, success). (judge_iff limit (h.do_request req)).1 success,
)
send_built_iff (some e) h limit req = (λ k. absurd (ground arith), λ (k, _). absurd (clash k))
  where
    clash : ◌≡◌ {A = Option Bytes} (some e) none → ⊥
    clash k = cc

pub after_marshal_iff :
    (h : Http) (limit : ℕ) (request : Bytes → Request) (marshalled : Result Bytes Bytes)
    → ((after_marshal h limit request marshalled).0 ≡ ok tt)
      ↔ ((body : Bytes) × (marshalled ≡ ok body) × Accepts h (request body))
unfolding after_marshal exchange
after_marshal_iff h limit request (err e) =
    (λ k. absurd (ground arith), λ (b, k, _). absurd (clash b k))
  where
    clash : (b : Bytes) → ◌≡◌ {A = Result Bytes Bytes} (err e) (ok b) → ⊥
    clash b k = cc
after_marshal_iff h limit request (ok body) =
    let (down, up) =
      send_built_iff (h.new_request (request body).method (request body).url) h limit
        (request body) in
    (
      λ k. (body, refl, down k),
      λ (b, k, accepts). up (subst (λ x. Accepts h (request x)) (same b k) accepts),
    )
  where
    same : (b : Bytes) → ◌≡◌ {A = Result Bytes Bytes} (ok body) (ok b) → b ≡ body
    same b k = cc
