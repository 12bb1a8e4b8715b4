-- ===== src/Recovery.antt =====
-- What RecoverCache in backend/internal/service/recovery.go rebuilds.
pub mod Claims
pub mod Orphans
pub mod Index
pub mod Units
pub mod Reserved
pub mod Promised
pub mod Rebuilt
pub mod Restored
pub mod Recovered
