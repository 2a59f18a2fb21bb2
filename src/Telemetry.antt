-- ===== src/Telemetry.antt =====
-- What the bus reports of itself: the gauges of its metrics (internal/pkg/metrics) and the log lines
-- that it pushes (internal/pkg/logger).
pub mod Metrics
pub mod Known
pub mod Gauges
pub mod Loki
pub mod Sent
pub mod Lines
pub mod Batches
mod Tests
