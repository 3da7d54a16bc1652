-- ===== src/CloudPayments.antt =====
-- src/app/billing_cloudpayments/: the CloudPayments callback, its verification and its credits.
pub mod Parser
pub mod Verify
pub mod Credit
pub mod Service
pub mod Payment
pub mod Durable
pub mod Selection
pub mod Batch
