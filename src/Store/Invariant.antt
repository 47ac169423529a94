-- ===== src/Store/Invariant.antt =====
-- What every call of the store keeps.
pub mod Rows
pub mod Sound
pub mod Keys
pub mod Final
pub mod Once
