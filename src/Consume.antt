-- ===== src/Consume.antt =====
-- How the bus consumes: messages of Kafka become batches and ids (internal/pkg/kafka/consumer), the
-- handler of a consumer's stream takes their results (internal/app/grpcapi), and a loop reconnects
-- after errors (internal/app/service/databus).
pub mod Ids
pub mod Reader
pub mod Commits
pub mod Handler
pub mod Enqueues
pub mod Stored
pub mod Reported
pub mod Settled
pub mod Queued
pub mod Loop
pub mod Rpc
pub mod Sessions
pub mod States
mod SessionTests
mod SettledTests
mod Tests
