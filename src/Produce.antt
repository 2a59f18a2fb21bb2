-- ===== src/Produce.antt =====
-- How the bus takes messages: the gRPC handlers (internal/app/grpcapi/produce.go), the service
-- (internal/app/service/databus/produce.go), the writer of Kafka
-- (internal/pkg/kafka/producer/producer.go), and the way of a message to its consumer.
pub mod Batch
pub mod Writes
pub mod EndToEnd
pub mod Redelivery
mod Tests
