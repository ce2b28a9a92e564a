-- ===== src/Alert.antt =====
-- internal/alert/alert.go: the alert engine. Limiter is the rate limit, Retry the delivery to one
-- channel, Engine the construction, the queue, the rules and the handling of one event.
pub mod Limiter
pub mod Retry
pub mod Http
pub mod Telegram
pub mod Webhook
pub mod Pushgateway
pub mod Rendered
pub mod Delivered
pub mod Engine
mod ChannelExamples
mod Examples
