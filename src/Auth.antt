-- ===== src/Auth.antt =====
-- Who may use the backend: src/qapp_backend/auth.
pub mod Base58
pub mod Identity
pub mod Groups
pub mod Service
mod Tests
