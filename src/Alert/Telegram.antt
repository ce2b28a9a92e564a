-- ===== src/Alert/Telegram.antt =====
-- internal/alert/telegram.go: the Telegram channel. `json.Marshal` is given; the alert comes as its
-- rendered text.
use redis_watcher.Base.{[], ◌∷◌, ◌++◌, ◌≡◌, ◌↔◌}
use redis_watcher.Base.Bytes.{Bytes, codes, is_empty}
use redis_watcher.Base.Results.{Result, ok}
use redis_watcher.Base.Tests.{◌==◌, if◌then◌else◌}
use redis_watcher.Alert.Http.{Request, Http, Sent, after_marshal, Accepts, after_marshal_iff}
use redis_watcher.Go.Int.{ℤ, pos, default_time}
use redis_watcher.Go.Text.{trim_right}

pub record TelegramOptions : Type 0 where
  pub endpoint : Bytes
  pub bot_token : Bytes
  pub chat_id : Bytes
  pub thread_id : ℤ
  pub timeout : ℤ

abbrev pub default_endpoint : Bytes
default_endpoint = codes "https://api.telegram.org"

-- `NewTelegramChannel`; the channel has the fields of its options.
unfoldable pub new_telegram : TelegramOptions → TelegramOptions
new_telegram o =
    let endpoint = trim_right (λ c. c == b'/') o.endpoint in
    record o {
      timeout = default_time o.timeout (pos 5_000_000_000);
      endpoint = if is_empty endpoint then default_endpoint else endpoint;
    }

-- The fields that `Send` fills, before the encoding.
pub record TelegramRequest : Type 0 where
  pub chat_id : Bytes
  pub text : Bytes
  pub message_thread_id : ℤ

abbrev pub telegram_request : TelegramOptions → Bytes → TelegramRequest
telegram_request t text = record {
  chat_id = t.chat_id;
  text = text;
  message_thread_id = t.thread_id;
}

abbrev pub telegram_url : TelegramOptions → Bytes
telegram_url t = t.endpoint ++ (codes "/bot" ++ (t.bot_token ++ codes "/sendMessage"))

abbrev pub telegram_post : TelegramOptions → Bytes → Request
telegram_post t body = record {
  method = codes "POST";
  url = telegram_url t;
  headers = (codes "Content-Type", codes "application/json") ∷ [];
  body = body;
}

-- `Send`
unfoldable pub telegram_send :
    (TelegramRequest → Result Bytes Bytes) → Http → TelegramOptions → Bytes → Sent
telegram_send marshal h t text =
    after_marshal h 1024 (telegram_post t) (marshal (telegram_request t text))

-- Sending succeeds exactly when the request's fields can be encoded, and the one POST of the
-- encoding to the bot's sendMessage can be built and is answered with a status of 200 to 299.
pub telegram_send_iff :
    (marshal : TelegramRequest → Result Bytes Bytes) (h : Http) (t : TelegramOptions) (text : Bytes)
    → ((telegram_send marshal h t text).0 ≡ ok tt) ↔ (
        (body : Bytes) × (marshal (telegram_request t text) ≡ ok body)
        × Accepts h (telegram_post t body))
unfolding telegram_send
telegram_send_iff marshal h t text =
    after_marshal_iff h 1024 (telegram_post t) (marshal (telegram_request t text))
