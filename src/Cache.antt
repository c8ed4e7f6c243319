-- ===== src/Cache.antt =====
-- The response cache, crates/neurust-intel/src/cache.
pub mod Entry
pub mod Eviction
pub mod Exact
pub mod Warming
pub mod Key
pub mod Tiered
pub mod SemanticCache
