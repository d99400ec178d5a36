-- ===== src/Workspace.antt =====
-- Projects and what they own beside flags: src/modules/projects, context-fields, environments and keys.
pub mod Environments
pub mod Keys
pub mod Projects
pub mod Fields
