-- ===== src/Cache.antt =====
-- src/cache/mod.rs: the two-layer fork cache.
pub mod State
pub mod Slots
pub mod Account
pub mod Purge
pub mod Apply
pub mod Batch
pub mod Snapshot
pub mod Verify
pub mod DeepClone
pub mod Overlay
