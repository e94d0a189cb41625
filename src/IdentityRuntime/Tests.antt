-- ===== src/IdentityRuntime/Tests.antt =====
-- A workspace whose connection is in service, and an empty cache.
use lightweight_saas_backend.Prelude.{List, [], some, true, ℕ, ◌++◌, ◌∷◌}
use lightweight_saas_backend.Examples.{
  acme, active_row, connected, envelope, key_id, new_ring, ws_id,
}
use lightweight_saas_backend.IdentityRuntime.Resolver.{Resolved, Resolver, cache_key, resolved_as}
use lightweight_saas_backend.ProviderCache.{ProviderCache, put}
use lightweight_saas_backend.Store.{Session, ok}
use lightweight_saas_backend.Text.{Text, codes}

abbrev resolver : Resolver (List ℕ)
resolver = record {
  aead = envelope;
  ring = new_ring;
  build = λ c secret. ok (some secret);
  format_time = λ t. t ∷ [];
}

abbrev begin : Session
begin = record { db = connected; faults = [] }

abbrev cache : ProviderCache (List ℕ)
cache = record { enabled = true; max = 4; order = [] }

abbrev ws_public : Text
ws_public = codes "ws_" ++ ws_id

abbrev answer : Resolved (List ℕ)
answer = resolved_as acme active_row.conn (codes "secret")

abbrev cache_after : ProviderCache (List ℕ)
cache_after = put key_id (cache_key resolver active_row.conn) (codes "secret") cache
