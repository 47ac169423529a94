-- ===== src/Handler.antt =====
-- internal/handler: the answers of the action handlers, and where they may connect to.
pub mod Errors
pub mod UrlPolicy
mod Examples
