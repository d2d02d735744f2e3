-- ===== src/Domain.antt =====
-- internal/domain: the entities, one module for each package.
pub mod User
pub mod Token
pub mod Totp
pub mod LoginChallenge
pub mod PasswordReset
