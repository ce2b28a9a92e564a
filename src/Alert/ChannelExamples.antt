-- ===== src/Alert/ChannelExamples.antt =====
-- Witnesses and runs of the channels.
use redis_watcher.Base.{map, ℕ, true, ◌≤◌, [], ◌∷◌, ◌++◌, none, some, ◌≡◌, refl, arith}
use redis_watcher.Base.Bytes.{Bytes, codes, eq_bytes}
use redis_watcher.Base.Dict.{lookup}
use redis_watcher.Base.Lists.{length, take}
use redis_watcher.Base.Results.{Result, ok, err}
use redis_watcher.Base.Tests.{◌==◌, if◌then◌else◌}
use redis_watcher.Alert.Delivered.{channel_world, send_one-Accepts}
use redis_watcher.Alert.Telegram.{TelegramOptions, TelegramRequest, default_endpoint, telegram_send}
use redis_watcher.Alert.Retry.{send_failed, retry_reporter, RetryPolicy, World, send_one}
use redis_watcher.Alert.Retry.Endings.{Fails}
use redis_watcher.Alert.Engine.{Alert, alert_of}
use redis_watcher.Alert.Http.{
  ChannelError, Response, Http, after_marshal, exchange, send_built, judge,
}
use redis_watcher.Alert.Pushgateway.{
  PushgatewayOptions, Ended, SameItems, Verdict, pushes, push_to, pushgateway_send,
  pushgateway_send-pushes,
}
use redis_watcher.Alert.Rendered.{head_lines, renderer, renderer-bound}
use redis_watcher.Alert.Webhook.{
  WebhookChannel, Payload, webhook_send, headers_of, last_value, headers_of-last_value, json,
}
use redis_watcher.Event.{Event, Time, command_line}
use redis_watcher.Go.Int.{pos}

abbrev event : Event
event = record {
  timestamp = record { sec = pos 7; nsec = 0 };
  db = pos 0;
  source = record { ip = codes "::1"; port = codes "5" };
  command = codes "CONFIG";
  subcommand = codes "GET";
  args = codes "get" ∷ codes "dir" ∷ [];
}

abbrev alert : Alert
alert = alert_of event (codes "rule")

-- A server that answers 204, and encodings that are the alert's reason.
abbrev server : Http
server = record {
  new_request = λ method url. none;
  do_request = λ req. ok (record { status = 204; body = [] });
}

abbrev encoder : Payload → Result Bytes Bytes
encoder p = ok p.reason

-- The canonical form of the one name that is used here.
abbrev canonical : Bytes → Bytes
canonical k = if eq_bytes k (codes "content-type") then codes "Content-Type" else k

abbrev hook : WebhookChannel
hook = record {
  url = codes "http://a";
  method = codes "PUT";
  headers = (codes "content-type", codes "text/plain") ∷ [];
  timeout = pos 5;
}

headers_of-last_value_example :
    lookup (codes "Content-Type") (headers_of canonical hook.headers)
    ≡ last_value canonical (codes "Content-Type") (some json) hook.headers
unfolding eq_bytes
headers_of-last_value_example =
    headers_of-last_value canonical (codes "Content-Type") hook.headers refl

abbrev options : PushgatewayOptions
options = record {
  urls = codes "http://a" ∷ codes "http://b" ∷ [];
  job = codes "watch";
  username = [];
  password = [];
  labels = [];
  timeout = pos 5;
}

-- Both pushes fail, in either order.
abbrev push_a : Ended
push_a = (push_to options alert (codes "http://a"), some (codes "refused"))

abbrev push_b : Ended
push_b = (push_to options alert (codes "http://b"), some (codes "timeout"))

both : SameItems (map (λ e. e.0) (push_b ∷ push_a ∷ [])) (pushes options alert)
both f = omega arith

pushgateway_send-pushes_example :
    Verdict options (push_b ∷ push_a ∷ []) (pushgateway_send options none (push_b ∷ push_a ∷ []))
pushgateway_send-pushes_example =
    pushgateway_send-pushes options alert (push_b ∷ push_a ∷ []) refl both

abbrev no_time : Time → Bytes
no_time _ = []

renderer-bound_example :
    (raw : Bytes) × (renderer no_time alert ≡ head_lines no_time alert ++ (codes "raw: " ++ raw))
    × (length raw ≤ 515)
    × (take 512 raw ≡ take 512 (command_line alert.event))
renderer-bound_example = renderer-bound no_time alert

-- The server is down at the first attempt and answers the second one.
abbrev down_once : ℕ → Http
down_once i = if i == 1 then record server { do_request = λ req. err (codes "refused") } else server

abbrev policy : RetryPolicy
policy = record {
  retry_max = 2;
  initial_backoff = pos 2;
  max_backoff = pos 5;
  reporter = retry_reporter;
}

abbrev message : ChannelError → Bytes
message _ = codes "failed"

abbrev chat : TelegramOptions
chat = record {
  endpoint = default_endpoint;
  bot_token = codes "t";
  chat_id = codes "c";
  thread_id = pos 0;
  timeout = pos 5;
}

abbrev text_only : TelegramRequest → Result Bytes Bytes
text_only r = ok r.text

abbrev by_hook : World
by_hook =
    channel_world message down_once (λ _. true)
      (λ h. webhook_send canonical encoder h hook alert (codes "text"))

abbrev by_chat : World
by_chat =
    channel_world message down_once (λ _. true) (λ h. telegram_send text_only h chat (codes "text"))

by_hook-Fails : Fails by_hook 1 1
unfolding webhook_send after_marshal exchange send_built judge alert_of
by_hook-Fails = ((send_failed (codes "failed"), refl), refl, tt)

by_chat-Fails : Fails by_chat 1 1
unfolding telegram_send after_marshal exchange send_built judge
by_chat-Fails = ((send_failed (codes "failed"), refl), refl, tt)

send_one-Accepts_example :
    ((send_one policy by_hook).1 ≡ none) × ((send_one policy by_chat).1 ≡ none)
send_one-Accepts_example =
    let answer : Response = record { status = 204; body = [] } in
    let (hooked, chatted) =
      send_one-Accepts message down_once (λ _. true) canonical encoder hook text_only chat alert
        (codes "text") policy 1 refl refl in
    (
      hooked.1 (
        1,
        omega arith,
        by_hook-Fails,
        (codes "rule", unfold alert_of in refl, (refl, (answer, refl, omega arith, omega arith))),
      ),
      chatted.1 (
        1,
        omega arith,
        by_chat-Fails,
        (codes "text", refl, (refl, (answer, refl, omega arith, omega arith))),
      ),
    )
