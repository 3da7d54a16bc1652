-- ===== src/Subscription.antt =====
-- src/app/subscription/: StoreKit verification and the subscription service.
pub mod StoreKit
pub mod Service
pub mod Trust
pub mod Sync
