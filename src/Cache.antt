-- ===== src/Cache.antt =====
-- The in-memory cache of transactions, db/cache.rs.
pub mod Lru
pub mod Transactions
