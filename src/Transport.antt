-- ===== src/Transport.antt =====
-- transport/api: how the service's results become responses.
pub mod Response
pub mod Handlers
pub mod Router
pub mod Guarded
pub mod Streams
pub mod Streamed
pub mod Session
pub mod Traffic
pub mod Reached
