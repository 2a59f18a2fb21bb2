-- ===== src/Outbox.antt =====
-- The transactional outbox of the Go SDK (api/golang/outbox): the rows of the redbus_outbox table
-- and the requests built from them, one step and one pass of the flusher.
pub mod Rows
pub mod Group
pub mod Ordering
pub mod Step
pub mod Pass
pub mod Publish
pub mod Queue
pub mod Delivery
pub mod Conservation
pub mod Exactness
pub mod Termination
pub mod Flusher
pub mod Run
pub mod RunDelivery
pub mod RunTriggers
pub mod RunEnd
pub mod Throttle
pub mod Write
mod RunTests
mod Tests
