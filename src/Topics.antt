-- ===== src/Topics.antt =====
-- The statistics of topics and groups: what the broker answers becomes offsets and lags
-- (internal/pkg/kafka/provider/provider.go), which are merged with the consumers that the bus has
-- itself (internal/app/service/databus/topic.go).
pub mod Partitions
pub mod Lag
pub mod Groups
pub mod Provider
pub mod Reported
pub mod Merge
pub mod Runtime
pub mod Service
mod Tests
