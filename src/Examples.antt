-- ===== src/Examples.antt =====
-- Concrete tables, callers and environments for the tests.
use lightweight_saas_backend.Prelude.{
  Bool, List, Option, [], arith, none, refl, some, suc, true, zero, ℕ, ◌++◌, ◌∷◌,
}
use lightweight_saas_backend.Audit.{Event, operator_actor}
use lightweight_saas_backend.Auth.{Identity, ProjectPrincipal}
use lightweight_saas_backend.Authz.Authorize.{Request}
use lightweight_saas_backend.Authz.Registry.{v1_workspace}
use lightweight_saas_backend.Authz.Scope.{users_read}
use lightweight_saas_backend.Connection.Model.{
  Connection, Row, active as connection_active, draft, full, healthy, keycloak,
}
use lightweight_saas_backend.Project.Model.{Credential, Project}
use lightweight_saas_backend.Project.Token.{token_prefix}
use lightweight_saas_backend.Secrets.{Aead, KeyMaterial, Keyring, Sealed, algorithm_aes_gcm}
use lightweight_saas_backend.Secrets.Laws.{IsAead}
use lightweight_saas_backend.Store.{Db}
use lightweight_saas_backend.Text.{Text, codes}
use lightweight_saas_backend.Workspace.Model.{Workspace, active}

abbrev pub ws_id : Text
ws_id = codes "3f2504e0-4f89-41d3-9a0c-0305e82c3301"

abbrev pub prj_id : Text
prj_id = codes "3f2504e0-4f89-41d3-9a0c-0305e82c3302"

abbrev pub key_id : Text
key_id = codes "3f2504e0-4f89-41d3-9a0c-0305e82c3303"

abbrev pub zero_id : Text
zero_id = codes "00000000-0000-4000-8000-000000000000"

abbrev pub zeros : ℕ → List ℕ
zeros zero = []
zeros (suc n) = 0 ∷ zeros n

-- Sixteen and fifty-two times the first letter of the alphabet.
abbrev pub zero_lookup : Text
zero_lookup = codes "aaaaaaaaaaaaaaaa"

abbrev pub zero_secret : Text
zero_secret = codes "aaaaaaaaaaaaaaaaaaaaaaaaaaaaaaaaaaaaaaaaaaaaaaaaaaaa"

abbrev pub acme : Workspace
acme = record {
  id = ws_id;
  slug = codes "acme";
  name = codes "Acme";
  status = active;
  created_at = 1;
  updated_at = 1;
  archived_at = none;
}

abbrev pub worker : Project
worker = record {
  id = prj_id;
  workspace_id = ws_id;
  name = codes "Worker";
  status = active;
  created_at = 2;
  updated_at = 2;
  archived_at = none;
}

-- The digest stands for a hash: a text is its own.
abbrev pub plain : Text → List ℕ
plain t = t

abbrev pub key : Credential
key = record {
  id = key_id;
  project_id = prj_id;
  label = codes "ci";
  key_prefix = zero_lookup;
  key_hash = zero_secret;
  key_hash_alg = codes "sha256";
  scopes = users_read ∷ [];
  expires_at = none;
  revoked_at = none;
  created_by = codes "root";
  revoked_by = none;
  created_at = 3;
  last_used_at = none;
}

abbrev pub db_with : List Credential → Db
db_with cs = record {
  workspaces = acme ∷ [];
  projects = worker ∷ [];
  credentials = cs;
  connections = [];
  audit = [];
}

abbrev pub happening : Event
happening = record {
  action = codes "created";
  actor = record {
    kind = operator_actor;
    subject = codes "root";
    project_id = [];
    credential_id = [];
  };
  target = record { kind = []; id = [] };
  workspace = [];
}

abbrev pub operator : Identity
operator = record {
  subject = codes "root";
  email = codes "root@example.com";
  username = codes "root";
  roles = codes "admin" ∷ [];
  expires_at = 10;
}

abbrev pub caller : ProjectPrincipal
caller = record {
  project_id = codes "prj_" ++ prj_id;
  project_name = codes "Worker";
  credential_id = codes "key_" ++ key_id;
  workspace_id = codes "ws_" ++ ws_id;
  scopes = users_read ∷ [];
}

abbrev pub anyone : Event → Bool
anyone e = true

-- A second project of the workspace, with a credential of its own.
abbrev pub second : Project
second = record worker { id = zero_id; name = codes "Second" }

abbrev pub second_key : Credential
second_key = record key {
  id = zero_id;
  project_id = zero_id;
  key_prefix = codes "bbbbbbbbbbbbbbbb";
  last_used_at = some 9;
}

abbrev pub second_token : Text
second_token = token_prefix ++ (codes "bbbbbbbbbbbbbbbb" ++ b'_' ∷ zero_secret)

abbrev pub two : Db
two = record (db_with (key ∷ second_key ∷ [])) { projects = worker ∷ second ∷ [] }

-- A route for the users of the workspace.
abbrev pub users_route : Request
users_route = record {
  method = codes "GET";
  full_path = v1_workspace ++ codes "/users";
  workspace_param = codes "ws_3f2504e0-4f89-41d3-9a0c-0305e82c3301";
}

-- In place of AES-GCM: a byte before the text.
abbrev pub unwrapped : List ℕ → Option (List ℕ)
unwrapped [] = none
unwrapped (b ∷ plaintext) = some plaintext

abbrev pub envelope : Aead
envelope = record {
  nonce_size = 2;
  seal_bytes = λ k n plaintext aad. 1 ∷ plaintext;
  open_bytes = λ k n ciphertext aad. unwrapped ciphertext;
}

abbrev pub old_key : KeyMaterial
old_key = record { version = 1; material = zeros 32 }

abbrev pub new_key_material : KeyMaterial
new_key_material = record { version = 2; material = 7 ∷ zeros 31 }

abbrev pub old_ring : Keyring
old_ring = record { keys = old_key ∷ []; current = 1 }

abbrev pub new_ring : Keyring
new_ring = record { keys = old_key ∷ new_key_material ∷ []; current = 2 }

-- The secret of a connection under the first key.
abbrev pub old_secret : Sealed
old_secret = record {
  ciphertext = 1 ∷ codes "secret";
  nonce = zeros 2;
  key_version = 1;
  algorithm = algorithm_aes_gcm;
}

-- A draft that was found healthy five nanoseconds before.
abbrev pub realm_draft : Connection
realm_draft = record {
  id = zero_id;
  workspace_id = ws_id;
  name = codes "Realm";
  provider = keycloak;
  status = draft;
  base_url = codes "https://id.example.com";
  realm = codes "acme";
  client_id = codes "backend";
  health = healthy;
  health_message = [];
  access_mode = full;
  last_verified_at = some 4;
  created_at = 2;
  updated_at = 4;
  activated_at = none;
  retired_at = none;
}

abbrev pub draft_row : Row
draft_row = record { conn = realm_draft; sealed = old_secret }

abbrev pub active_row : Row
active_row = record {
  conn = record realm_draft { id = key_id; status = connection_active; activated_at = some 3 };
  sealed = old_secret;
}

abbrev pub connected : Db
connected = record (db_with []) { connections = draft_row ∷ active_row ∷ [] }

pub envelope-IsAead : IsAead envelope
envelope-IsAead = record {
  opens = λ k n plaintext aad fits. refl;
  nonempty = λ k n plaintext aad h. absurd (ground arith);
}
