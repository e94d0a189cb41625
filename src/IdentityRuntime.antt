-- ===== src/IdentityRuntime.antt =====
-- internal/identityruntime: which provider serves the identity requests of a workspace.
pub mod Resolver
pub mod RoleGuard
pub mod Coherent
pub mod Isolation
mod Tests
