-- ===== src/Tests.antt =====
-- The services run on small databases.
pub mod Data
pub mod Wallets
pub mod Access
pub mod Purchases
pub mod Adapty
pub mod CloudPayments
pub mod Limits
pub mod Secrets
pub mod Keys
pub mod Identities
pub mod Requests
pub mod Chat
pub mod Sites
pub mod Chats
pub mod Workspaces
