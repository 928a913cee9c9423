-- ===== src/Silo/Cache.antt =====
-- The page cache of internal/silo/cache.go.
pub mod State
pub mod Entries
pub mod Pending
pub mod Invariant
pub mod Closed
pub mod Remove
pub mod Sweep
pub mod Evict
pub mod Lookup
pub mod Commit
pub mod System
pub mod Start
