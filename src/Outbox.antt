-- ===== src/Outbox.antt =====
-- The delivery of stock decrements to AvitoBackend.
pub mod Backoff
pub mod Rows
pub mod Leases
pub mod Settled
pub mod Claimed
pub mod Delivers
