-- ===== src/Storage.antt =====
-- src/storage: the interface to the block stores, and the store in memory.
pub mod Trait
pub mod Memory
pub mod Lru
pub mod Sample
pub mod Cache
