-- ===== src/Authz.antt =====
-- internal/authz: what a principal may do on the /v1 surface.
pub mod Scope
pub mod Registry
pub mod Authorize
mod Tests
