-- ===== src/ConnStore.antt =====
-- The connected consumers and producers of the bus (internal/app/service/connstore). A Go map is an
-- association list; the order of the list is the order in which a range visits the keys.
pub mod Consumers
pub mod Lookup
pub mod Producers
