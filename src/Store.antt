-- ===== src/Store.antt =====
-- internal/store: the tables, the transactions and the operations on them.
pub mod Rows
pub mod Tx
pub mod Accept
pub mod Claim
pub mod Requeue
pub mod Action
pub mod Replay
pub mod Audit
pub mod Stats
pub mod Heartbeats
pub mod Calls
pub mod Invariant
pub mod Released
pub mod Snapshots
mod Examples
