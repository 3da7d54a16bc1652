-- ===== src/Chat.antt =====
-- src/app/chat: the stored turns of a chat, the results of the client's tools, and what the final
-- answer of a turn costs.
pub mod Repository
pub mod Attachments
pub mod Sessions
pub mod History
pub mod ToolResult
pub mod Billing
pub mod Calls
pub mod Barrier
pub mod Charge
