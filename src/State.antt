-- ===== src/State.antt =====
-- internal/state: the store of query metadata, its interface and the in-memory implementation.
pub mod MetaStore
pub mod Contract
pub mod Memory
pub mod Redis
