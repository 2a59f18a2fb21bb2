-- ===== src/Stream.antt =====
-- The consume stream between the bus and a client: how long a result is awaited
-- (internal/app/model/consume_limits.go), the messages that it carries
-- (internal/app/model/message.go, internal/pkg/stream/convert.go) and the exchange of a batch for
-- its result (internal/pkg/stream/stream.go).
pub mod Limits
pub mod Messages
pub mod Exchange
mod Tests
