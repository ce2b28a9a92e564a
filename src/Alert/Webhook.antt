-- ===== src/Alert/Webhook.antt =====
-- internal/alert/webhook.go: the webhook channel. `json.Marshal` and the canonical form of a header's
-- name are given. The headers come in the order in which the range over the map visits them.
use redis_watcher.Base.{
  Bool, true, List, [], ◌∷◌, Option, none, some, ◌≡◌, ◌↔◌, refl, arith, inl, inr, ap, ◌∙◌, sym,
}
use redis_watcher.Base.Bytes.{Bytes, codes, is_empty, eq_bytes, eq_bytes_iff}
use redis_watcher.Base.Dict.{lookup, insert, lookup-insert}
use redis_watcher.Base.Lists.{any}
use redis_watcher.Base.Results.{Result, ok}
use redis_watcher.Base.Tests.{if◌then◌else◌, Bool-cases}
use redis_watcher.Alert.Engine.{Alert}
use redis_watcher.Alert.Http.{Request, Http, Sent, after_marshal, Accepts, after_marshal_iff}
use redis_watcher.Event.{Time, Event}
use redis_watcher.Go.Int.{ℤ, pos, default_time}
use redis_watcher.Go.Text.{Unicode, to_upper}

pub record WebhookChannel : Type 0 where
  pub url : Bytes
  pub method : Bytes
  pub headers : List (Bytes × Bytes)
  pub timeout : ℤ

unfoldable pub new_webhook : Unicode → Bytes → Bytes → List (Bytes × Bytes) → ℤ → WebhookChannel
new_webhook u url method headers timeout = record {
  url = url;
  method = to_upper u (if is_empty method then codes "POST" else method);
  headers = headers;
  timeout = default_time timeout (pos 5_000_000_000);
}

pub record Payload : Type 0 where
  pub timestamp : Time
  pub reason : Bytes
  pub command : Bytes
  pub source : Bytes
  pub db : ℤ
  pub text : Bytes
  pub event : Event

abbrev pub payload_of : Alert → Bytes → Payload
payload_of a text = record {
  timestamp = a.timestamp;
  reason = a.reason;
  command = a.command;
  source = a.source;
  db = a.db;
  text = text;
  event = a.event;
}

abbrev pub content_type : Bytes
content_type = codes "Content-Type"

abbrev pub json : Bytes
json = codes "application/json"

abbrev has_key : Bytes → List (Bytes × Bytes) → Bool
has_key k = any (λ e. eq_bytes k e.0)

module _ (canonical : Bytes → Bytes) where
  -- `Header.Set` for each header.
  unfoldable pub set_headers : List (Bytes × Bytes) → List (Bytes × Bytes) → List (Bytes × Bytes)
  set_headers [] set = set
  set_headers ((k, v) ∷ headers) set = set_headers headers (insert (canonical k) v set)

  unfoldable pub headers_of : List (Bytes × Bytes) → List (Bytes × Bytes)
  unfolding set_headers
  headers_of headers =
      if has_key content_type headers
      then set_headers headers []
      else set_headers headers (insert (canonical content_type) json [])

  abbrev pub webhook_post : WebhookChannel → Bytes → Request
  webhook_post w body = record {
    method = w.method;
    url = w.url;
    headers = headers_of w.headers;
    body = body;
  }

  -- `Send`, the alert with its rendered text.
  unfoldable pub webhook_send :
      (Payload → Result Bytes Bytes) → Http → WebhookChannel → Alert → Bytes → Sent
  webhook_send marshal h w a text =
      after_marshal h 512 (webhook_post w) (marshal (payload_of a text))

  -- Sending succeeds exactly when the payload can be encoded, and the one request with the encoding
  -- can be built and is answered with a status of 200 to 299.
  pub webhook_send_iff :
      (marshal : Payload → Result Bytes Bytes) (h : Http) (w : WebhookChannel) (a : Alert)
      (text : Bytes)
      → ((webhook_send marshal h w a text).0 ≡ ok tt) ↔ (
          (body : Bytes) × (marshal (payload_of a text) ≡ ok body)
          × Accepts h (webhook_post w body))
  unfolding webhook_send
  webhook_send_iff marshal h w a text =
      after_marshal_iff h 512 (webhook_post w) (marshal (payload_of a text))

  -- The value of the last header that a name is the canonical form of, or the value at hand.
  abbrev pub last_value : Bytes → Option Bytes → List (Bytes × Bytes) → Option Bytes
  last_value name v [] = v
  last_value name v ((k, w) ∷ headers) =
      last_value name (if eq_bytes (canonical k) name then some w else v) headers

  lookup-set_headers :
      (name : Bytes) (headers set : List (Bytes × Bytes))
      → lookup name (set_headers headers set) ≡ last_value name (lookup name set) headers
  unfolding set_headers
  lookup-set_headers name [] set = refl
  lookup-set_headers name ((k, v) ∷ headers) set =
      lookup-set_headers name headers (insert (canonical k) v set)
      ∙ ap (λ x. last_value name x headers) (lookup-insert (canonical k) name v set)

  last_value-has_key :
      (name : Bytes) (headers : List (Bytes × Bytes)) (v w : Option Bytes)
      → canonical name ≡ name
      → has_key name headers ≡ true
      → last_value name v headers ≡ last_value name w headers
  last_value-has_key name [] v w fixed h = absurd (ground arith)
  last_value-has_key name ((k, x) ∷ headers) v w fixed h = elim (Bool-cases (eq_bytes name k)) [
    | inl this ↦
        rw
          (
            ap (λ y. eq_bytes y name) (ap canonical (sym ((eq_bytes_iff name k).0 this)) ∙ fixed),
            (eq_bytes_iff name name).1 refl,
          )
          refl
    | inr other ↦
        last_value-has_key name headers (if eq_bytes (canonical k) name then some x else v)
          (if eq_bytes (canonical k) name then some x else w) fixed (ground arith)
  ]

  -- The request always has a content type: the value of the last header whose name is Content-Type
  -- in canonical form, however it is written, and application/json where there is none. Every
  -- other name has the value of the last header with that canonical form.
  pub headers_of-last_value :
      (name : Bytes) (headers : List (Bytes × Bytes))
      → canonical content_type ≡ content_type
      → lookup name (headers_of headers)
        ≡ last_value name (if eq_bytes content_type name then some json else none) headers
  unfolding headers_of lookup
  headers_of-last_value name headers fixed = elim (Bool-cases (has_key content_type headers)) [
    | inr lacks ↦ rw lacks (
        lookup-set_headers name headers (insert (canonical content_type) json [])
        ∙ ap (λ x. last_value name x headers)
            (lookup-insert (canonical content_type) name json []
              ∙ ap (λ y. if eq_bytes y name then some json else none) fixed))
    | inl has ↦ rw has (lookup-set_headers name headers [] ∙ given has)
  ]
    where
      given :
          has_key content_type headers ≡ true
          → last_value name none headers
            ≡ last_value name (if eq_bytes content_type name then some json else none) headers
      given has = elim (Bool-cases (eq_bytes content_type name)) [
        | inr other ↦ rw other refl
        | inl same ↦
            let e = (eq_bytes_iff content_type name).0 same in
            last_value-has_key name headers none
              (if eq_bytes content_type name then some json else none)
              (ap canonical (sym e) ∙ fixed ∙ e) (ap (λ n. has_key n headers) (sym e) ∙ has)
      ]
