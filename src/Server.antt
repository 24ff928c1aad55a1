-- ===== src/Server.antt =====
-- The HTTP server: cmd/server/main.go.
pub mod Overrides
pub mod Timeline
pub mod Payload
pub mod Profile
pub mod Webhook
pub mod Handlers
pub mod ClientIp
