-- ===== src/Retry.antt =====
-- The retry queue of the bus: retry strategies and repeats (internal/app/model), the repeat table
-- (internal/app/repository) and the repeater service (internal/app/service/repeater).
pub mod Strategy
pub mod Repeat
pub mod Exhaustion
pub mod Table
pub mod ByError
pub mod Soundness
pub mod Queue
pub mod Service
pub mod Iteration
mod Tests
