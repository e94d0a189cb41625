-- ===== src/ProviderCache.antt =====
-- internal/identityruntime/cache.go: the cache of identity providers, least recently used out first.
pub mod Laws
mod Tests
-- `order` from front to back. The map `index` takes a key to its element of `order`, and is not a
-- part of the state of its own: every method changes the two together, and a look into the map is
-- the search for the key in the list.
use lightweight_saas_backend.Prelude.{
  Bool, List, Option, [], false, find, if◌then◌else◌, length, none, not, select, some, take, true,
  ℕ, ◌==◌, ◌∷◌,
}
use lightweight_saas_backend.Text.{Text, text_eq}

pub record Entry (P : Type 0) : Type 0 where
  pub key : Text
  pub connection_id : Text
  pub provider : P

pub record ProviderCache (P : Type 0) : Type 0 where
  pub enabled : Bool
  pub max : ℕ
  pub order : List (Entry P)

abbrev pub default_cache_size : ℕ
default_cache_size = 64

-- `newProviderCache`; a negative size is `none`.
unfoldable pub new_provider_cache : {P : Type 0} → Option ℕ → ProviderCache P
new_provider_cache none = record { enabled = false; max = 0; order = [] }
new_provider_cache (some size) = record {
  enabled = true;
  max = if size == 0 then default_cache_size else size;
  order = [];
}

abbrev pub has_key : {P : Type 0} → Text → Entry P → Bool
has_key key e = text_eq e.key key

-- `Remove` of the element of a key.
unfoldable pub without : {P : Type 0} → Text → List (Entry P) → List (Entry P)
without key [] = []
without key (e ∷ es) = let rest = without key es in if has_key key e then es else e ∷ rest

-- `MoveToFront` after a hit.
unfoldable pub hit : {P : Type 0} → ProviderCache P → Option (Entry P) → ProviderCache P × Option P
unfolding without
hit c none = (c, none)
hit c (some e) = (record c { order = e ∷ without e.key c.order }, some e.provider)

unfoldable pub get : {P : Type 0} → Text → ProviderCache P → ProviderCache P × Option P
unfolding hit
get key c = if c.enabled then hit c (find (has_key key) c.order) else (c, none)

abbrev pub of_connection : {P : Type 0} → Text → Entry P → Bool
of_connection connection_id e = text_eq e.connection_id connection_id

-- The loop at the end removes from the back while there are more than `max`.
unfoldable pub insert : {P : Type 0} → Entry P → ProviderCache P → ProviderCache P
insert e c = record c {
  order = take c.max (e ∷ select (λ x. not (of_connection e.connection_id x)) c.order);
}

unfoldable pub replaced :
    {P : Type 0} → Text → Text → P → ProviderCache P → Option (Entry P) → ProviderCache P
unfolding without insert
replaced connection_id key p c (some e) = record c {
  order = record e { provider = p } ∷ without e.key c.order;
}
replaced connection_id key p c none =
    insert (record { key = key; connection_id = connection_id; provider = p }) c

unfoldable pub put : {P : Type 0} → Text → Text → P → ProviderCache P → ProviderCache P
unfolding replaced
put connection_id key p c =
    if c.enabled then replaced connection_id key p c (find (has_key key) c.order) else c

unfoldable pub cached : {P : Type 0} → ProviderCache P → ℕ
cached c = if c.enabled then length c.order else 0
