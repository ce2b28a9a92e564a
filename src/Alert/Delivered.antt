-- ===== src/Alert/Delivered.antt =====
-- The engine's attempts (alert.go) through the webhook channel (webhook.go) and the Telegram channel
-- (telegram.go): each attempt meets package net/http in its own state.
use redis_watcher.Base.{ℕ, suc, ◌+◌, ◌≤◌, Bool, Option, none, some, ◌≡◌, ◌↔◌, refl}
use redis_watcher.Base.Bytes.{Bytes}
use redis_watcher.Base.Results.{Result, ok, err}
use redis_watcher.Alert.Engine.{Alert}
use redis_watcher.Alert.Http.{ChannelError, Request, Http, Sent, Accepts}
use redis_watcher.Alert.Retry.{SendError, send_failed, retry_reporter, RetryPolicy, World, send_one}
use redis_watcher.Alert.Retry.Endings.{Fails}
use redis_watcher.Alert.Retry.Laws.{send_one_iff}
use redis_watcher.Alert.Telegram.{
  TelegramOptions, TelegramRequest, telegram_request, telegram_post, telegram_send,
  telegram_send_iff,
}
use redis_watcher.Alert.Webhook.{
  WebhookChannel, Payload, payload_of, webhook_post, webhook_send, webhook_send_iff,
}

-- The error that the engine sees.
abbrev pub outcome_of : (ChannelError → Bytes) → Result ChannelError (Unit {0}) → Option SendError
outcome_of message (ok _) = none
outcome_of message (err e) = some (send_failed (message e))

outcome_of_iff :
    (message : ChannelError → Bytes) (r : Result ChannelError (Unit {0}))
    → (outcome_of message r ≡ none) ↔ (r ≡ ok tt)
outcome_of_iff message (ok tt) = (λ h. refl, λ h. refl)
outcome_of_iff message (err e) = (λ h. cc, λ h. cc)

module _ (message : ChannelError → Bytes) (http : ℕ → Http) (wakes : ℕ → Bool) where
  -- A channel's `Send` at each attempt, and which waits run their time.
  abbrev pub channel_world : (Http → Sent) → World
  channel_world send = record { outcome = λ i. outcome_of message (send (http i)).0; wakes = wakes }

  -- At some attempt within the limit what is sent can be encoded and the request with it is
  -- accepted, after attempts that failed and waits that ran their time.
  abbrev pub AcceptedInTime : ℕ → (Http → Sent) → (Bytes → Request) → Result Bytes Bytes → Type 0
  AcceptedInTime left send request encoded =
      (n : ℕ) × (n ≤ left)
      × Fails (channel_world send) 1 n
      × ((body : Bytes) × (encoded ≡ ok body) × Accepts (http (1 + n)) (request body))

  send_one-AcceptedInTime :
      (p : RetryPolicy) (left : ℕ) (send : Http → Sent) (request : Bytes → Request)
      (encoded : Result Bytes Bytes)
      → p.reporter ≡ retry_reporter
      → p.retry_max ≡ suc left
      → ((h : Http)
          → ((send h).0 ≡ ok tt)
            ↔ ((body : Bytes) × (encoded ≡ ok body) × Accepts h (request body)))
      → ((send_one p (channel_world send)).1 ≡ none) ↔ AcceptedInTime left send request encoded
  send_one-AcceptedInTime p left send request encoded full limit sends =
      let (down, up) = send_one_iff p (channel_world send) left full limit in
      (
        λ h.
            let (n, le, fails, works) = down h in
            (n, le, fails, (sends (http (1 + n))).0 ((outcome_of_iff message _).0 works)),
        λ (n, le, fails, accepted).
            up (n, le, fails, (outcome_of_iff message _).1 ((sends (http (1 + n))).1 accepted)),
      )

  -- The engine delivers an alert by webhook exactly when, at some attempt within the limit, the
  -- payload can be encoded and the server answers the request with a status of 200 to 299, after
  -- attempts that failed and waits that ran their time; and by Telegram exactly when that holds of
  -- the message and the POST to the bot's sendMessage.
  pub send_one-Accepts :
      (canonical : Bytes → Bytes) (json : Payload → Result Bytes Bytes) (w : WebhookChannel)
      (telegram_json : TelegramRequest → Result Bytes Bytes) (t : TelegramOptions) (a : Alert)
      (text : Bytes) (p : RetryPolicy) (left : ℕ)
      → p.reporter ≡ retry_reporter
      → p.retry_max ≡ suc left
      → (((send_one p (channel_world (λ h. webhook_send canonical json h w a text))).1 ≡ none)
          ↔ AcceptedInTime left
              (λ h. webhook_send canonical json h w a text)
              (webhook_post canonical w)
              (json (payload_of a text)))
        × (((send_one p (channel_world (λ h. telegram_send telegram_json h t text))).1 ≡ none)
            ↔ AcceptedInTime left
                (λ h. telegram_send telegram_json h t text)
                (telegram_post t)
                (telegram_json (telegram_request t text)))
  send_one-Accepts canonical json w telegram_json t a text p left full limit = (
    send_one-AcceptedInTime p left (λ h. webhook_send canonical json h w a text)
        (webhook_post canonical w) (json (payload_of a text)) full limit
        (λ h. webhook_send_iff canonical json h w a text),
    send_one-AcceptedInTime p left (λ h. telegram_send telegram_json h t text) (telegram_post t)
        (telegram_json (telegram_request t text)) full limit
        (λ h. telegram_send_iff telegram_json h t text),
  )
