-- ===== src/Lib.antt =====
-- A verification library of lightweight-saas-backend, a multi-tenant backend in Go: workspaces hold
-- projects, projects hold machine credentials, and one HTTP surface is shared by operators (OIDC)
-- and projects (credentials).
--
-- The parts, the files that model them, and how they work together:
--   PublicId        internal/publicid/publicid.go: prefixed identifiers (Format, Parse, New).
--   Store           internal/database/tx.go, and PostgreSQL as the repositories use it: five tables,
--                   and a session in which every statement, BEGIN, SAVEPOINT and COMMIT may fail.
--   Audit           internal/audit/event.go: the event that a mutation records in its transaction.
--   AuditLog        internal/auditlog/redaction.go: what of an event may be kept.
--   Workspace       internal/workspace: Model, Slug (slug.go), Repository (repository.go), Service
--                   (service.go; Create, UpdateName and Archive are create_workspace,
--                   rename_workspace and archive_workspace).
--   Project         internal/project: Model, Token (token.go), Repository, Service (service.go;
--                   Service/Credentials is CreateCredential and RevokeCredential), Authenticator
--                   (authenticator.go); Lifecycle and Access put them together with Auth and Authz.
--   Auth            internal/auth: principals and AuthenticatePrincipal (principal.go, identity.go,
--                   extractBearer of middleware.go); AdminCheck is the cache of admin_check.go.
--   Authz           internal/authz: Scope, Registry, Authorize; the single boundary that decides on
--                   the principal that Auth left.
--   RateLimit       internal/server/ratelimit.go: the token buckets.
--   Secrets         internal/secrets: aesgcm.go and keyring.go, sealing under versioned keys.
--   Connection      internal/connection: Model, Repository, Service and Operations (service.go),
--                   Rotation and Census (rotate.go). Calls are the mutations as requests; Step is
--                   what one does to the table, View the life cycle that the table follows.
--   ProviderCache   internal/identityruntime/cache.go: the cache of identity providers.
--   IdentityRuntime internal/identityruntime/resolver.go: from a workspace through its active
--                   connection, its secret and the cache to a provider; RoleGuard is role_guard.go.
--   IdentityService internal/identity/service.go: the guards of the operations on users and roles,
--                   and in Creation the checks before one is created.
-- Prelude holds the names that all modules share, Text the texts and what the code uses of Go's
-- package strings, Examples the data of the tests.
--
-- State and representation. A text is the list of its code points, and its length that of its UTF-8
-- encoding; texts are valid UTF-8. Lower case beyond ASCII is a table that is an argument. A time is
-- a number of nanoseconds. What comes from outside is an argument: the bytes of crypto/rand, the
-- clock, SHA-256, AES-GCM, url.Parse, PostgreSQL's lower, the identity provider with the verifier of
-- its connections, the answers of the OIDC provider and of the live admin check, and whether the
-- audit writer can attribute an event. An error of the driver is one constructor.
-- Every loop is structural recursion on its input, so no fuel is used. Buckets count tokens in
-- thousand-millionths: the rounding of float64 is left out. Each transaction and each call under a
-- mutex is one step; transactions that interleave are not modelled.
--
-- Not modelled: handlers, DTOs, routes, logs and metrics, which are glue; the Keycloak client and
-- the web console; the verifier of connections, which is an argument; the attribution and the pages
-- of the audit log and the configuration, which are components of their own.
pub mod Prelude
pub mod Text
pub mod PublicId
pub mod Auth
pub mod Authz
pub mod Workspace
pub mod Audit
pub mod AuditLog
pub mod Project
pub mod Result
pub mod Store
pub mod Secrets
pub mod Connection
pub mod IdentityRuntime
pub mod IdentityService
pub mod Examples
pub mod RateLimit
pub mod ProviderCache
