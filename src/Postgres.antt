-- ===== src/Postgres.antt =====
-- backend/internal/repository/postgres: the tables and the methods of DurableRepo.
pub mod State
pub mod Rows
pub mod Rights
pub mod Found
pub mod Once
pub mod Snapshot
pub mod Outbox
pub mod Reports
pub mod Reported
