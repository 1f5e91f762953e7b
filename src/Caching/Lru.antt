-- ===== src/Caching/Lru.antt =====
-- packages/node/caching/src/core/lru.cache.ts, and the theorems about it.
pub mod Defs
pub mod Window
pub mod Invariant
pub mod History
