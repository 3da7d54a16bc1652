-- ===== src/Auth.antt =====
-- src/app/auth: device identities, Sign in with Apple, and the pairs of access and refresh tokens.
pub mod Apple
pub mod Trust
pub mod Identity
pub mod Tokens
pub mod Rows
pub mod Refresh
pub mod SameUser
pub mod Devices
