-- ===== src/Call.antt =====
-- src/qapp_backend/call: rooms, membership, moderation, screen sharing and group keys.
pub mod Base64
pub mod Env
pub mod Requests
pub mod Commands
pub mod State
pub mod Rooms
pub mod Membership
pub mod Moderation
pub mod Screen
pub mod Service
pub mod Invariant
pub mod Sends
pub mod Authority
pub mod Leases
mod Tests
