-- ===== src/Service.antt =====
-- backend/internal/service: QueueService, operation by operation.
pub mod Config
pub mod Sync
pub mod Advance
pub mod Join
pub mod Payment
pub mod Leave
pub mod Offer
pub mod Expiration
pub mod Keys
pub mod Recovery
pub mod Outbox
pub mod Presence
pub mod Views
