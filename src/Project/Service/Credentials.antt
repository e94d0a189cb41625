-- ===== src/Project/Service/Credentials.antt =====
-- internal/project/service.go: minting and revoking credentials.
use lightweight_saas_backend.Prelude.{
  List, Option, [], if◌then◌else◌, leb, ltb, none, some, ℕ, ◌||◌, ◌∷◌,
}
use lightweight_saas_backend.Audit.{Event}
use lightweight_saas_backend.Authz.Scope.{Normalized, bad_scope, normalize_scopes, scopes_ok}
use lightweight_saas_backend.Project.Model.{
  Credential, Project, max_active_credentials, max_label_length,
}
use lightweight_saas_backend.Project.Repository.{
  Error, count_active_credentials, credential_limit_reached, credential_not_found, driver,
  get_credential, insert_credential_row, internal, invalid_credential_id, invalid_expiry,
  invalid_scope, label_required, list_credential_rows, not_recorded, revoke_credential_row,
}
use lightweight_saas_backend.Project.Service.{
  Env, about_credential, keep_already_revoked, parsed_id, required, resolve, to_internal, unfrozen,
}
use lightweight_saas_backend.Project.Token.{MintedCredential, mint_credential}
use lightweight_saas_backend.PublicId.{credential_prefix, new, parse}
use lightweight_saas_backend.Store.{
  M, Result, err, in_tx, lift, masking, ok, pure, record_tx, ◌>>=◌, ◌>>◌,
}
use lightweight_saas_backend.Text.{Text, codes, len, text_eq, trim_space}

pub record CreateCredentialInput : Type 0 where
  pub label : Text
  pub scopes : List Text
  pub expires_at : Option ℕ
  pub created_by : Text

unfoldable pub valid_label : Text → Result Error Text
valid_label label =
    if text_eq label [] || ltb max_label_length (len label) then err label_required else ok label

-- `invalidScopeError`: an empty value gives the error without one.
invalid_scope_error : Text → Error
invalid_scope_error bad = if text_eq bad [] then invalid_scope none else invalid_scope (some bad)

nonempty_scopes : List Text → Result Error (List Text)
nonempty_scopes [] = err (invalid_scope none)
nonempty_scopes (s ∷ scopes) = ok (s ∷ scopes)

unfoldable pub of_normalized : Normalized → Result Error (List Text)
unfolding invalid_scope_error nonempty_scopes
of_normalized (bad_scope bad) = err (invalid_scope_error bad)
of_normalized (scopes_ok scopes) = nonempty_scopes scopes

unfoldable pub valid_expiry : ℕ → Option ℕ → Result Error (Unit {0})
valid_expiry now none = ok tt
valid_expiry now (some t) = if ltb now t then ok tt else err invalid_expiry

unfoldable pub below_limit : ℕ → Result Error (Unit {0})
below_limit n = if leb max_active_credentials n then err credential_limit_reached else ok tt

abbrev pub sha256_alg : Text
sha256_alg = codes "sha256"

unfoldable pub fresh_credential :
    Env → Project → CreateCredentialInput → Text → List Text → Text → MintedCredential → Credential
fresh_credential env p input label scopes id minted = record {
  id = id;
  project_id = p.id;
  label = label;
  key_prefix = minted.key_prefix;
  key_hash = minted.key_hash;
  key_hash_alg = sha256_alg;
  scopes = scopes;
  expires_at = input.expires_at;
  revoked_at = none;
  created_by = input.created_by;
  revoked_by = none;
  created_at = env.now;
  last_used_at = none;
}

-- The transaction of `CreateCredential`, and the token that is returned beside the row.
unfoldable pub insert_credential : Env → Credential → Text → Event → M Error (Credential × Text)
insert_credential env c token ev = in_tx driver (do
  masking to_internal (insert_credential_row c)
  record_tx not_recorded env.writer (about_credential c ev)
  pure (c, token))

-- The rest of `CreateCredential`, on an input that was checked.
unfoldable pub mint_and_insert :
    Env → CreateCredentialInput → Project → Text → List Text → Event → M Error (Credential × Text)
unfolding below_limit required fresh_credential insert_credential
mint_and_insert env input p label scopes ev = do
  n ← masking to_internal (count_active_credentials p.id)
  lift (below_limit n)
  id ← lift (required internal (new env.entropy))
  minted ← lift (required internal (mint_credential env.hash env.lookup_raw env.secret_raw))
  insert_credential env (fresh_credential env p input label scopes id minted) minted.token ev

unfoldable pub create_credential :
    Env → Text → Text → CreateCredentialInput → Event → M Error (Credential × Text)
unfolding valid_label of_normalized valid_expiry mint_and_insert
create_credential env workspace_public project_public input ev = do
  p ← resolve workspace_public project_public
  _ ← lift (unfrozen p)
  label ← lift (valid_label (trim_space input.label))
  scopes ← lift (of_normalized (normalize_scopes env.table input.scopes))
  lift (valid_expiry env.now input.expires_at)
  mint_and_insert env input p label scopes ev

unfoldable pub list_credentials : Text → Text → M Error (List Credential)
list_credentials workspace_public project_public = do
  p ← resolve workspace_public project_public
  masking to_internal (list_credential_rows p.id)

-- A credential of another project is as absent as one that never was.
unfoldable pub owned_credential : Project → Option Credential → Result Error (Unit {0})
owned_credential p none = err credential_not_found
owned_credential p (some c) = if text_eq c.project_id p.id then ok tt else err credential_not_found

-- The transaction of `RevokeCredential`.
unfoldable pub revoke_recorded : Env → Text → Text → Event → M Error Credential
unfolding keep_already_revoked required
revoke_recorded env id by ev = in_tx driver (do
  row ← masking keep_already_revoked (revoke_credential_row id by env.now)
  c ← lift (required credential_not_found row)
  record_tx not_recorded env.writer (about_credential c ev)
  pure c)

unfoldable pub revoke_credential : Env → Text → Text → Text → Text → Event → M Error Credential
unfolding parsed_id owned_credential revoke_recorded
revoke_credential env workspace_public project_public credential_public by ev = do
  p ← resolve workspace_public project_public
  id ← lift (parsed_id invalid_credential_id (parse credential_prefix credential_public))
  existing ← masking to_internal (get_credential id)
  lift (owned_credential p existing)
  revoke_recorded env id by ev
