-- ===== src/Policy.antt =====
-- The access policy of src/app/policy/: the engine, the loader that feeds it, and what an allowed
-- answer costs (`_billing_plan` of src/app/chat/orchestrator.py).
pub mod Engine
pub mod Loader
pub mod Access
pub mod Effective
