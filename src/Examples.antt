-- ===== src/Examples.antt =====
-- A small shop, on which the theorems are applied and the service is run: product 7 has three units;
-- user 5 holds a right for one, user 6 is offered two, user 8 waits.
pub mod Shop
mod Oversell
mod Queues
mod Rights
mod Joins
mod Faults
mod Recovery
mod Outbox
mod Views
mod Endings
mod Streams
