-- ===== src/Sdk.antt =====
-- The entry point of the Go SDK (api/golang/redbus): the settings, and the client that they
-- configure.
pub mod Settings
pub mod Client
mod Tests
