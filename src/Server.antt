-- ===== src/Server.antt =====
-- internal/server: what stands before the acceptance of an event.
pub mod Budget
pub mod ClientIp
pub mod Limiter
pub mod Handler
pub mod Headers
pub mod Webhook
pub mod Admin
mod Examples
