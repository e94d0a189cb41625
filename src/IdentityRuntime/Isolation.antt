-- ===== src/IdentityRuntime/Isolation.antt =====
-- A workspace is served by the provider of its own active connection, with the cache or without.
use lightweight_saas_backend.Prelude.{false, find, some, true, ◌≡◌}
use lightweight_saas_backend.Connection.Model.{Connection, connection_public_id, driver, is_active}
use lightweight_saas_backend.Connection.Recorded.{Named}
use lightweight_saas_backend.Connection.Repository.{active_in, conn_of}
use lightweight_saas_backend.IdentityRuntime.Coherent.{BuiltFor}
use lightweight_saas_backend.IdentityRuntime.Resolver.{Resolved, Resolver, cache_key}
use lightweight_saas_backend.ProviderCache.{ProviderCache}
use lightweight_saas_backend.Store.{Db}
use lightweight_saas_backend.Text.{Text}
use lightweight_saas_backend.Workspace.Model.{Workspace, is_archived, public_id}
use lightweight_saas_backend.Workspace.Repository.{driver as workspace_driver}

module _ {P : Type 0} (r : Resolver P) where
  -- What a success promises: the workspace is the stored one that the public id names and is live,
  -- the connection is in service in it, and the provider was built for that connection as it stands.
  abbrev pub Serves : Text → Db → Resolved P → Type 0
  Serves public db resolved =
      (ws : Workspace) × (c : Connection) × Named public db ws
      × (is_archived ws ≡ false)
      × (conn_of (find (active_in ws.id) db.connections) ≡ some c)
      × (c.workspace_id ≡ ws.id)
      × (is_active c.status ≡ true)
      × (resolved.workspace_public_id ≡ public_id ws)
      × (resolved.connection_public_id ≡ connection_public_id c)
      × (resolved.access_mode ≡ c.access_mode)
      × BuiltFor r (cache_key r c) c.id resolved.provider
