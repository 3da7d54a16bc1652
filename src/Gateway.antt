-- ===== src/Gateway.antt =====
-- The HTTP layer of src/app/deps.py and src/app/api_gateway: who a request is from, whether it is let
-- through, and what the billing endpoints run for it.
pub mod Caller
pub mod Address
pub mod Serve
pub mod Sound
