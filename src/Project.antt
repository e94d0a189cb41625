-- ===== src/Project.antt =====
-- internal/project: projects, their credentials, and the authentication of machine callers.
pub mod Model
pub mod Token
pub mod Repository
pub mod Service
pub mod Authenticator
pub mod Lifecycle
pub mod Access
