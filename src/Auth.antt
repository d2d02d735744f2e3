-- ===== src/Auth.antt =====
-- internal/application/auth: the use cases.
pub mod Ports
pub mod Session
pub mod Otp
pub mod Setup
pub mod Login
pub mod Verify
pub mod Reset
pub mod Account
pub mod Untouched
