-- ===== src/Admin.antt =====
-- What the operators of the bus use: the statistics of errors (internal/app/model/errorclass.go), the
-- statistics of the queue and the triage of failures (internal/app/repository/repeater.go) and the checks of the control API
-- (internal/app/controlapi).
pub mod ErrorStats
pub mod ClassTotals
pub mod Triage
pub mod TriageCounts
pub mod Stat
pub mod StatCounts
pub mod Lookback
mod Tests
