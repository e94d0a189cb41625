-- ===== src/Workspace.antt =====
-- internal/workspace: the Workspace domain.
pub mod Model
pub mod Slug
pub mod Repository
pub mod Service
