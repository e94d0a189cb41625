-- ===== src/IdentityRuntime/Resolver.antt =====
-- internal/identityruntime/resolver.go: from a workspace to the provider of its active connection.
use lightweight_saas_backend.Prelude.{
  Bool, List, Option, [], if◌then◌else◌, none, not, some, ℕ, ◌&&◌, ◌++◌, ◌||◌, ◌∷◌,
}
use lightweight_saas_backend.ProviderCache.{get}
use lightweight_saas_backend.Connection.Model.{connection_public_id}
use lightweight_saas_backend.Connection.Model.{AccessMode, Connection, can_write, is_active}
use lightweight_saas_backend.Connection.Repository.{get_active_by_workspace, open_secret}
use lightweight_saas_backend.Connection.Service.{secret_aad}
use lightweight_saas_backend.ProviderCache.{ProviderCache, put}
use lightweight_saas_backend.PublicId.{Parsed, parse, parsed, unparsed, workspace_prefix}
use lightweight_saas_backend.Secrets.{Aead, Keyring, Sealed, SecretError, open_sealed}
use lightweight_saas_backend.Store.{M, Result, err, lift, masking, ok, pure, ◌>>=◌}
use lightweight_saas_backend.Text.{Text, text_eq}
use lightweight_saas_backend.Workspace.Model.{Workspace, is_archived, public_id}
use lightweight_saas_backend.Workspace.Repository.{get_by_id}

pub data RuntimeError : Type 0 where
  runtime_invalid_id runtime_no_workspace runtime_archived connection_missing : RuntimeError
  connection_unusable credentials_unavailable internal : RuntimeError

-- What `identity.ErrNotConfigured` is told from.
pub data BuildError : Type 0 where
  not_configured build_failed : BuildError

-- The keyring, the builder of providers, which may return nil, and the format of a time.
pub record Resolver (P : Type 0) : Type 0 where
  pub aead : Aead
  pub ring : Keyring
  pub build : Connection → List ℕ → Result BuildError (Option P)
  pub format_time : ℕ → Text

pub record Resolved (P : Type 0) : Type 0 where
  pub provider : P
  pub workspace_public_id : Text
  pub connection_public_id : Text
  pub access_mode : AccessMode

unfoldable pub resolved_can_write : {P : Type 0} → Resolved P → Bool
resolved_can_write r = can_write r.access_mode

abbrev pub to_internal : {E : Type 0} → E → RuntimeError
to_internal e = internal

abbrev pub identified : Parsed → Result RuntimeError Text
identified (parsed id) = ok id
identified (unparsed _) = err runtime_invalid_id

abbrev pub live_one : Option Workspace → Result RuntimeError Workspace
live_one none = err runtime_no_workspace
live_one (some ws) = if is_archived ws then err runtime_archived else ok ws

unfoldable pub require_live_workspace : Text → M RuntimeError Workspace
require_live_workspace public = do
  id ← lift (identified (parse workspace_prefix public))
  row ← masking to_internal (get_by_id id)
  lift (live_one row)

-- `usable`; every provider kind there is is Keycloak.
unfoldable pub usable : Connection → Bool
usable c =
    is_active c.status
    && not (text_eq c.base_url [] || text_eq c.realm [] || text_eq c.client_id [])

abbrev pub active_one : Option Connection → Result RuntimeError Connection
active_one none = err connection_missing
active_one (some c) = if usable c then ok c else err connection_unusable

unfoldable pub cache_key : {P : Type 0} → Resolver P → Connection → Text
cache_key r c = c.id ++ b'@' ∷ r.format_time c.updated_at

abbrev pub present_secret : Option Sealed → Result RuntimeError Sealed
present_secret none = err credentials_unavailable
present_secret (some s) = ok s

abbrev pub readable : Result SecretError (List ℕ) → Result RuntimeError (List ℕ)
readable (err e) = err credentials_unavailable
readable (ok p) = ok p

abbrev pub built : {P : Type 0} → Result BuildError (Option P) → Result RuntimeError P
built (err not_configured) = err connection_unusable
built (err build_failed) = err internal
built (ok none) = err internal
built (ok (some p)) = ok p

unfoldable pub build_provider : {P : Type 0} → Resolver P → Connection → M RuntimeError P
build_provider r c = do
  row ← masking to_internal (open_secret c.id)
  sealed ← lift (present_secret row)
  plaintext ← lift (readable (open_sealed r.aead r.ring sealed (secret_aad c.id)))
  lift (built (r.build c plaintext))

abbrev pub resolved_as : {P : Type 0} → Workspace → Connection → P → Resolved P
resolved_as ws c p = record {
  provider = p;
  workspace_public_id = public_id ws;
  connection_public_id = connection_public_id c;
  access_mode = c.access_mode;
}

-- The cache, and the provider where the cache has none.
unfoldable pub served :
    {P : Type 0}
    → Resolver P
    → Workspace
    → Connection
    → ProviderCache P × Option P
    → M RuntimeError (Resolved P × ProviderCache P)
served r ws c (cache, some p) = pure (resolved_as ws c p, cache)
served r ws c (cache, none) = do
  p ← build_provider r c
  pure (resolved_as ws c p, put c.id (cache_key r c) p cache)

-- `ForWorkspace`. Where it fails the cache is what it was: `get` moves only what it finds.
unfoldable pub for_workspace :
    {P : Type 0}
    → Resolver P
    → Text
    → ProviderCache P
    → M RuntimeError (Resolved P × ProviderCache P)
for_workspace r public cache = do
  ws ← require_live_workspace public
  row ← masking to_internal (get_active_by_workspace ws.id)
  c ← lift (active_one row)
  served r ws c (get (cache_key r c) cache)
