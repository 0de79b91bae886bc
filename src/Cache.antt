-- ===== src/Cache.antt =====
-- main/cache/cache_store.c: the RAM key-value cache with expiry and eviction.
pub mod Cells
pub mod Get
pub mod Put
pub mod Invariant
pub mod Eviction
pub mod Slot
pub mod Victim
pub mod Lookup
pub mod Storing
pub mod Reading
pub mod Sweeping
pub mod Laws
pub mod Runs
mod Tests
