-- ===== src/Connection/Service.antt =====
-- internal/connection/service.go: validation, ownership, sealing and the transactions.
use lightweight_saas_backend.Prelude.{
  Bool, List, Option, [], false, if◌then◌else◌, ltb, none, not, some, ℕ, ◌&&◌, ◌==◌, ◌||◌, ◌∷◌,
}
use lightweight_saas_backend.Audit.{Event}
use lightweight_saas_backend.Connection.Model.{
  Connection, Error, Provider, base_url_invalid, client_id_required, client_secret_required,
  connection_public_id, draft, driver, health_unknown, id_unavailable, invalid_id, invalid_request,
  invalid_status_filter, invalid_workspace_id, keycloak, mode_unknown, name_required, not_found,
  not_recorded, provider_unsupported, realm_required, seal_failed, workspace_archived,
  workspace_not_found,
}
use lightweight_saas_backend.Connection.Repository.{
  VerifyReport, insert_connection, list_connections, load_row, parse_status_filter,
}
use lightweight_saas_backend.PublicId.{
  Parsed, connection_prefix, new, parse, parsed, unparsed, workspace_prefix,
}
use lightweight_saas_backend.Secrets.{Aead, Keyring, Sealed, SecretError, associated_data, seal}
use lightweight_saas_backend.Store.{
  M, Result, Writer, err, in_tx, lift, masking, ok, pure, record_tx, ◌>>=◌, ◌>>◌,
}
use lightweight_saas_backend.Text.{Text, codes, len, text_eq, trim_space}
use lightweight_saas_backend.Workspace.Model.{Workspace, is_archived, public_id}
use lightweight_saas_backend.Workspace.Repository.{get_by_id}

pub record VerifyTarget : Type 0 where
  pub base_url : Text
  pub realm : Text
  pub client_id : Text
  pub client_secret : List ℕ

-- The collaborators and what varies from call to call: the keyring and AES-GCM, the random bytes of
-- an id and of a nonce, `url.Parse` with the scheme and the host of its result, the verifier, the
-- clock and the audit writer. A secret is the list of its bytes.
pub record Env : Type 0 where
  pub aead : Aead
  pub ring : Keyring
  pub entropy : Option (List ℕ)
  pub nonce : Option (List ℕ)
  pub parse_url : Text → Option (Text × Text)
  pub verify : VerifyTarget → VerifyReport
  pub now : ℕ
  pub writer : Writer

abbrev pub max_name_length : ℕ
max_name_length = 200

abbrev pub target_kind : Text
target_kind = codes "connection"

unfoldable pub about : Connection → Event → Event
about c e = record e { target = record { kind = target_kind; id = connection_public_id c } }

unfoldable pub secret_aad : Text → Text
secret_aad id = associated_data (codes "connection") id (codes "client_secret")

-- Errors of the keyring and of the other package pass as they are.
abbrev pub sealing : Result SecretError Sealed → Result Error Sealed
sealing (err e) = err seal_failed
sealing (ok s) = ok s

abbrev pub opening : Result SecretError (List ℕ) → Result Error (List ℕ)
opening (err e) = err seal_failed
opening (ok p) = ok p

abbrev pub to_driver : {E : Type 0} → E → Error
to_driver e = driver

abbrev pub required : {A : Type 0} → Error → Option A → Result Error A
required e none = err e
required e (some a) = ok a

abbrev pub parsed_id : Error → Parsed → Result Error Text
parsed_id e (parsed id) = ok id
parsed_id e (unparsed _) = err e

unfoldable pub require_workspace : Text → M Error Workspace
require_workspace public = do
  id ← lift (parsed_id invalid_workspace_id (parse workspace_prefix public))
  row ← masking to_driver (get_by_id id)
  lift (required workspace_not_found row)

abbrev pub writable : Workspace → Result Error (Unit {0})
writable ws = if is_archived ws then err workspace_archived else ok tt

abbrev pub owned : Workspace → Option Connection → Result Error Connection
owned ws none = err not_found
owned ws (some c) = if text_eq c.workspace_id ws.id then ok c else err not_found

unfoldable pub resolve : Text → Text → M Error (Workspace × Connection)
resolve workspace_public connection_public = do
  ws ← require_workspace workspace_public
  id ← lift (parsed_id invalid_id (parse connection_prefix connection_public))
  row ← load_row id
  c ← lift (owned ws row)
  pure (ws, c)

unfoldable pub valid_name : Text → Result Error Text
valid_name name =
    if text_eq name []
    then err name_required
    else if ltb max_name_length (len name)
    then err invalid_request
    else ok name

-- `parseProvider`
unfoldable pub parse_provider : Text → Result Error Provider
parse_provider raw =
    let p = trim_space raw in
    if text_eq p [] || text_eq p (codes "keycloak") then ok keycloak else err provider_unsupported

-- `strings.TrimRight` with a slash.
trim_slashes : Text → Text
trim_slashes [] = []
trim_slashes (c ∷ s) =
    let rest = trim_slashes s in if text_eq rest [] && c == b'/' then [] else c ∷ rest

acceptable_url : Option (Text × Text) → Bool
acceptable_url none = false
acceptable_url (some (scheme, host)) =
    (text_eq scheme (codes "http") || text_eq scheme (codes "https")) && not (text_eq host [])

-- `normalizeBaseURL`
unfoldable pub normalize_base_url : (Text → Option (Text × Text)) → Text → Result Error Text
unfolding acceptable_url trim_slashes
normalize_base_url parse_url raw =
    let trimmed = trim_space raw in
    if text_eq trimmed []
    then err base_url_invalid
    else if acceptable_url (parse_url trimmed)
    then ok (trim_slashes trimmed)
    else err base_url_invalid

unfoldable pub nonempty : Error → Text → Result Error Text
nonempty e s = if text_eq s [] then err e else ok s

pub record CreateInput : Type 0 where
  pub name : Text
  pub provider : Text
  pub base_url : Text
  pub realm : Text
  pub client_id : Text
  pub client_secret : List ℕ

-- The fields of a `CreateInput` that were checked.
pub record Config : Type 0 where
  pub name : Text
  pub provider : Provider
  pub base_url : Text
  pub realm : Text
  pub client_id : Text

unfoldable pub checked_config : Env → CreateInput → M Error Config
checked_config env input = do
  name ← lift (valid_name (trim_space input.name))
  provider ← lift (parse_provider input.provider)
  base_url ← lift (normalize_base_url env.parse_url input.base_url)
  realm ← lift (nonempty realm_required (trim_space input.realm))
  client_id ← lift (nonempty client_id_required (trim_space input.client_id))
  _ ← lift (nonempty client_secret_required input.client_secret)
  pure (record {
    name = name;
    provider = provider;
    base_url = base_url;
    realm = realm;
    client_id = client_id;
  })

unfoldable pub fresh_connection : Text → Text → Config → ℕ → Connection
fresh_connection id workspace_id config now = record {
  id = id;
  workspace_id = workspace_id;
  name = config.name;
  provider = config.provider;
  status = draft;
  base_url = config.base_url;
  realm = config.realm;
  client_id = config.client_id;
  health = health_unknown;
  health_message = [];
  access_mode = mode_unknown;
  last_verified_at = none;
  created_at = now;
  updated_at = now;
  activated_at = none;
  retired_at = none;
}

-- The transaction of `Create`.
unfoldable pub insert_recorded : Env → Workspace → Connection → Sealed → Event → M Error Connection
insert_recorded env ws c sealed ev = in_tx driver (do
  insert_connection (record { conn = c; sealed = sealed })
  record_tx not_recorded env.writer (about c (record ev { workspace = public_id ws }))
  pure c)

unfoldable pub create : Env → Text → CreateInput → Event → M Error Connection
create env workspace_public input ev = do
  ws ← require_workspace workspace_public
  lift (writable ws)
  config ← checked_config env input
  id ← lift (required id_unavailable (new env.entropy))
  sealed ← lift (sealing (seal env.aead env.ring env.nonce input.client_secret (secret_aad id)))
  insert_recorded env ws (fresh_connection id ws.id config env.now) sealed ev

unfoldable pub get : Text → Text → M Error Connection
get workspace_public connection_public = do r ← resolve workspace_public connection_public; pure r.1

unfoldable pub list : Text → Text → M Error (List Connection)
list workspace_public raw_status = do
  ws ← require_workspace workspace_public
  filter ← lift (required invalid_status_filter (parse_status_filter raw_status))
  list_connections ws.id filter

-- A mutation of a row and the record of it.
unfoldable pub recorded : Env → M Error (Option Connection) → Event → M Error Connection
recorded env mutation ev = in_tx driver (do
  row ← mutation
  c ← lift (required not_found row)
  record_tx not_recorded env.writer (about c ev)
  pure c)
