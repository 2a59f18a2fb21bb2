-- ===== src/Control.antt =====
-- The control API (internal/app/controlapi), and its client in the admin application
-- (internal/pkg/admincontrol).
pub mod Wire
pub mod Views
pub mod Times
pub mod Api
pub mod Client
pub mod Seen
pub mod RoundTrip
pub mod Requests
pub mod Effects
pub mod Queue
pub mod Waiting
mod Tests
