-- ===== src/Caching.antt =====
-- core/caching: the records, the entry of one beacon, the cache of all beacons, and eviction.
pub mod Record
pub mod Entry
pub mod Key
pub mod Distinct
pub mod Cache
pub mod Eviction
