-- ===== src/Monitor.antt =====
-- internal/monitor: the client of the MONITOR stream and the parser of its lines.
pub mod Client
pub mod Parser
