-- ===== src/Platform.antt =====
-- internal/platform: opaque tokens, the TOTP codes and the encryption of their secrets, over
-- the libraries that they call.
pub mod Clients
pub mod Tokenhash
pub mod Totp
pub mod Totpsecret
pub mod Password
pub mod Jwtauth
