-- ===== src/Reticulum.antt =====
-- The wire of src/qapp_backend/reticulum.
pub mod Base64
pub mod Framing
pub mod Protocol
pub mod Connection
pub mod Sessions
pub mod Writer
pub mod Server
mod Tests
