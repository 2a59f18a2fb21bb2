-- ===== src/Inbox.antt =====
-- The inbox of the consumer SDK: marks of processed messages (api/golang/inbox/inbox.go) and the
-- processing behind them (api/golang/consumer/inbox.go).
pub mod Marks
pub mod Once
mod Tests
