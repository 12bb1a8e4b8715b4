-- ===== src/Redis.antt =====
-- backend/internal/repository/redis: the keyspace, the Lua scripts and the methods of CacheRepo.
pub mod SortedSet
pub mod State
pub mod Scripts
pub mod Timers
pub mod TimersKept
pub mod Order
pub mod Fifo
pub mod Claims
pub mod Repo
pub mod Restored
