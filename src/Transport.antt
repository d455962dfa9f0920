-- ===== src/Transport.antt =====
-- src/qapp_backend/private_transport: the credentials of a private channel and its frames.
pub mod Tokens
pub mod Framing
pub mod Payload
pub mod Service
pub mod Bootstrap
mod Tests
