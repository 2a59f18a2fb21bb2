-- ===== src/Client.antt =====
-- The consumer of the client library (api/golang/consumer): its options and the connect request,
-- the results of a batch, and the session that serves a stream. The bus's side of the stream is
-- Stream and Consume.
pub mod Options
pub mod Agreement
pub mod Results
pub mod Session
pub mod Serving
pub mod Connecting
pub mod Batches
pub mod Delivery
mod Tests
