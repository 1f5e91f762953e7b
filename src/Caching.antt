-- ===== src/Caching.antt =====
-- packages/node/caching/src
pub mod Types
pub mod Lru
pub mod RedisCache
