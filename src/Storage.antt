-- ===== src/Storage.antt =====
-- src/storage/memory_adapter.rs: the values, and the operations of the in-memory adapter.
pub mod Value
pub mod Adapter
pub mod Expiry
pub mod Keyspace
pub mod View
pub mod Contract
pub mod Lifetime
pub mod Moves
pub mod Batch
pub mod Serial
pub mod Codec
pub mod Disk
pub mod Engine
