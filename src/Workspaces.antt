-- ===== src/Workspaces.antt =====
-- src/app/workspaces: workspaces, their knowledge files and what of them the model is shown.
pub mod Repository
pub mod Service
pub mod Context
pub mod Limits
