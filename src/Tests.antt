-- ===== src/Tests.antt =====
-- Concrete caches and registries, and on them what each result says of one run of the code.
pub mod Data
pub mod Updates
pub mod Caches
pub mod Prefetch
pub mod Trust
pub mod Chain
pub mod Access
pub mod Pipeline
pub mod Bulk
pub mod Simulation
pub mod Bundles
