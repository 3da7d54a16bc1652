-- ===== src/Adapty.antt =====
-- src/app/billing_adapty/: the Adapty subscription webhook.
pub mod Parser
pub mod Service
pub mod Delivery
pub mod Effect
pub mod Credits
