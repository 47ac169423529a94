-- ===== src/Queue.antt =====
-- internal/queue: the durable event worker.
pub mod Settings
pub mod Loaded
pub mod Backoff
pub mod Failure
pub mod Vars
pub mod Process
pub mod Drain
pub mod Lifecycle
mod Examples
