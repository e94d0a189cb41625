-- ===== src/Project/Service/Tests.antt =====
-- A project that mints a credential, revokes it and is archived.
use lightweight_saas_backend.Prelude.{List, [], false, refl, some, true, ◌++◌, ◌∷◌, ◌≡◌, ◌≢◌}
use lightweight_saas_backend.Auth.{ProjectPrincipal}
use lightweight_saas_backend.Authz.Scope.{is_known_scope, normalize_scopes}
use lightweight_saas_backend.Examples.{
  anyone, db_with, happening, key, key_id, plain, prj_id, second, second_key, second_token, two,
  worker, ws_id, zero_id, zero_lookup, zero_secret, zeros,
}
use lightweight_saas_backend.Project.Authenticator.{
  accepts, authenticate_credential, decide, principal_of, touch,
}
use lightweight_saas_backend.Project.Authenticator.Laws.{
  Genuine, authenticate_credential-Genuine, authenticate_credential_accepts, reading,
}
use lightweight_saas_backend.Project.Lifecycle.{
  archive-ends, create_credential-Genuine, revoke_credential-ends,
}
use lightweight_saas_backend.Project.Model.{
  Credential, Project, credential_public_id, is_expired, is_revoked, is_usable,
  needs_last_used_touch, project_public_id,
}
use lightweight_saas_backend.Project.Repository.{
  active_count, archive_project, count_active_credentials, find_by_key_prefix, freeze_rows,
  get_credential, get_project, insert_credential_row, project_of_credential, revoke_credential_row,
  revoke_rows, same_credential_key,
}
use lightweight_saas_backend.Project.Service.{
  Env, about_credential, about_project, archive, create, rename, require_workspace, resolve,
  unfrozen,
}
use lightweight_saas_backend.Project.Service.Atomic.{project_mutations-IsAtomic}
use lightweight_saas_backend.Project.Service.Credentials.{
  CreateCredentialInput, create_credential, insert_credential, mint_and_insert, revoke_credential,
  sha256_alg,
}
use lightweight_saas_backend.Project.Service.Issue.{Issued, create_credential-Issued}
use lightweight_saas_backend.Project.Token.{
  encode, is_base32_lower, mint_credential, parse_token, secret_matches, token_prefix,
}
use lightweight_saas_backend.PublicId.{hex_encode, layout, new, parse, stamp}
use lightweight_saas_backend.Store.{
  Session, in_tx, ok, query, record_tx, savepoint, statement, written,
}
use lightweight_saas_backend.Store.Laws.{IsAtomic}
use lightweight_saas_backend.Text.{
  Text, codes, cut, len, strip_prefix, text_eq, to_lower, trim_space,
}
use lightweight_saas_backend.Workspace.Model.{archived}
use lightweight_saas_backend.Workspace.Repository.{get_by_id}

abbrev env : Env
env = record {
  table = λ c. c;
  fold = λ t. t;
  entropy = some (zeros 16);
  lookup_raw = some (zeros 10);
  secret_raw = some (zeros 32);
  now = 9;
  hash = plain;
  writer = anyone;
}

abbrev input : CreateCredentialInput
input = record {
  label = codes " ci ";
  scopes = codes "users:read" ∷ [];
  expires_at = some 100;
  created_by = codes "root";
}

abbrev zero_token : Text
zero_token = token_prefix ++ (zero_lookup ++ b'_' ∷ zero_secret)

abbrev fresh_key : Credential
fresh_key = record key {
  id = zero_id;
  key_hash_alg = sha256_alg;
  expires_at = some 100;
  created_at = 9;
}

abbrev workspace_public : Text
workspace_public = codes "ws_" ++ ws_id

abbrev project_public : Text
project_public = codes "prj_" ++ prj_id

abbrev after_issue : Session
after_issue = record {
  db = record (db_with (fresh_key ∷ [])) { audit = about_credential fresh_key happening ∷ [] };
  faults = [];
}

abbrev before : List Credential → Session
before cs = record { db = db_with cs; faults = [] }

issues :
    create_credential env workspace_public project_public input happening (before [])
    ≡ (ok (fresh_key, zero_token), after_issue)
unfolding create_credential resolve require_workspace get_by_id get_project query statement written
    parse text_eq len trim_space to_lower cut normalize_scopes is_known_scope mint_and_insert
    count_active_credentials active_count new stamp layout hex_encode mint_credential encode
    insert_credential insert_credential_row same_credential_key in_tx record_tx unfrozen
issues = refl

create_credential-Issued_example :
    Issued env workspace_public project_public input happening
      (db_with [])
      after_issue.db
      fresh_key
      zero_token
create_credential-Issued_example =
    create_credential-Issued env workspace_public project_public input happening (before [])
      after_issue fresh_key zero_token issues

lasts : is_expired 50 fresh_key ≡ false
unfolding is_expired
lasts = refl

create_credential-Genuine_example :
    (p : Project) × Genuine plain 50 zero_token after_issue.db fresh_key p
create_credential-Genuine_example =
    create_credential-Genuine env workspace_public project_public input happening (before [])
      after_issue fresh_key zero_token (zeros 10) (zeros 32) 50 issues refl refl refl refl lasts

project_mutations-IsAtomic_example :
    IsAtomic (create env workspace_public (codes "x") happening)
    × IsAtomic (rename env workspace_public project_public (codes "x") happening)
    × IsAtomic (archive env workspace_public project_public happening)
    × IsAtomic (create_credential env workspace_public project_public input happening)
    × IsAtomic (
        revoke_credential env workspace_public project_public
          (codes "key_")
          (codes "root")
          happening)
project_mutations-IsAtomic_example =
    project_mutations-IsAtomic env workspace_public project_public (codes "key_") (codes "x")
      (codes "root") input happening

-- Another project's credential goes on authenticating when the first project is archived, and
-- another credential when the first is revoked.
abbrev frozen_worker : Project
frozen_worker = record worker { status = archived; archived_at = some 9; updated_at = 9 }

abbrev after_archive : Session
after_archive = record {
  db = record two {
    projects = frozen_worker ∷ second ∷ [];
    audit = about_project frozen_worker happening ∷ [];
  };
  faults = [];
}

archives :
    archive env workspace_public project_public happening (record { db = two; faults = [] })
    ≡ (ok frozen_worker, after_archive)
unfolding archive resolve require_workspace get_by_id get_project query statement written parse
    text_eq len trim_space to_lower cut archive_project freeze_rows savepoint in_tx record_tx
archives = refl

abbrev second_caller : ProjectPrincipal
second_caller = principal_of second_key second

second_accepted :
    authenticate_credential plain 20 second_token after_archive
    ≡ (ok (some second_caller), after_archive)
unfolding authenticate_credential parse_token find_by_key_prefix project_of_credential query
    statement written text_eq len strip_prefix cut is_base32_lower decide accepts secret_matches
    is_usable is_revoked is_expired touch needs_last_used_touch
second_accepted = refl

archive-ends_example : second_caller.project_id ≢ project_public_id frozen_worker
archive-ends_example =
    archive-ends env workspace_public project_public happening (record { db = two; faults = [] })
      after_archive after_archive after_archive frozen_worker plain 20 second_token second_caller
      archives refl second_accepted

authenticate_credential-Genuine_example :
    (c : Credential) × (q : Project) × Genuine plain 20 second_token after_archive.db c q
    × (second_caller ≡ principal_of c q)
authenticate_credential-Genuine_example =
    authenticate_credential-Genuine plain 20 second_token after_archive after_archive second_caller
      second_accepted

second-Genuine : Genuine plain 20 second_token two second_key second
unfolding parse_token text_eq len strip_prefix cut is_base32_lower secret_matches is_usable
    is_revoked is_expired
second-Genuine = (
  record { lookup = codes "bbbbbbbbbbbbbbbb"; secret = zero_secret },
  refl,
  refl,
  refl,
  refl,
  refl,
)

authenticate_credential_accepts_example :
    (t : Session) × (authenticate_credential plain 20 second_token (reading two (true ∷ []))
      ≡ (ok (some (principal_of second_key second)), t))
authenticate_credential_accepts_example =
    authenticate_credential_accepts plain 20 second_token two (true ∷ []) second_key second
      second-Genuine

abbrev revoked_key : Credential
revoked_key = record key { revoked_at = some 9; revoked_by = some (codes "root") }

abbrev after_revoke : Session
after_revoke = record {
  db = record two {
    credentials = revoked_key ∷ second_key ∷ [];
    audit = about_credential revoked_key happening ∷ [];
  };
  faults = [];
}

revokes :
    revoke_credential env workspace_public project_public
      (codes "key_" ++ key_id)
      (codes "root")
      happening
      (record { db = two; faults = [] })
    ≡ (ok revoked_key, after_revoke)
unfolding revoke_credential resolve require_workspace get_by_id get_project get_credential query
    statement written parse text_eq len trim_space to_lower cut revoke_credential_row revoke_rows
    savepoint in_tx record_tx
revokes = refl

second_still_accepted :
    authenticate_credential plain 20 second_token after_revoke
    ≡ (ok (some second_caller), after_revoke)
unfolding authenticate_credential parse_token find_by_key_prefix project_of_credential query
    statement written text_eq len strip_prefix cut is_base32_lower decide accepts secret_matches
    is_usable is_revoked is_expired touch needs_last_used_touch
second_still_accepted = refl

revoke_credential-ends_example : second_caller.credential_id ≢ credential_public_id revoked_key
revoke_credential-ends_example =
    revoke_credential-ends env workspace_public project_public (codes "key_" ++ key_id)
      (codes "root") happening (record { db = two; faults = [] }) after_revoke after_revoke
      after_revoke revoked_key plain 20 second_token second_caller revokes refl
      second_still_accepted
