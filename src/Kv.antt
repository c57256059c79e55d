-- ===== src/Kv.antt =====
-- store.rs: the key-value state machine.
pub mod Session
pub mod Dict
pub mod Store
pub mod Dedup
pub mod History
