-- ===== src/Byok.antt =====
-- src/app/byok: the keys that users bring themselves, how they are stored and when they may be used.
pub mod Keys
pub mod Service
pub mod Sealing
pub mod Status
