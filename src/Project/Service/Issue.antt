-- ===== src/Project/Service/Issue.antt =====
-- What a success of `CreateCredential` checked and wrote.
-- Everything that a success of `CreateCredential` rests on.
use mathlib.Core.Path.{subst}
use lightweight_saas_backend.Prelude.{
  [], any, ap, false, ltb, none, some, sym, true, ◌++◌, ◌∙◌, ◌∷◌, ◌≡◌, ◌≢◌,
}
use lightweight_saas_backend.Audit.{Event}
use lightweight_saas_backend.Authz.Scope.{normalize_scopes, scopes_ok}
use lightweight_saas_backend.Project.Model.{Credential, Project, max_active_credentials}
use lightweight_saas_backend.Project.Repository.{active_count, same_credential_key}
use lightweight_saas_backend.Project.Service.{Env, about_credential, resolve, unfrozen}
use lightweight_saas_backend.Project.Service.Credentials.{
  CreateCredentialInput, create_credential, fresh_credential, of_normalized, valid_expiry,
  valid_label,
}
use lightweight_saas_backend.Project.Service.Laws.{Resolved, resolve-eq-ok}
use lightweight_saas_backend.Project.Service.Minting.{
  Minted, mint_and_insert-eq-ok, nonempty-eq-ok, unfrozen-eq-ok,
}
use lightweight_saas_backend.Project.Token.{MintedCredential, mint_credential}
use lightweight_saas_backend.Store.{Db, Session, ok}
use lightweight_saas_backend.Store.Laws.{>>=-eq-ok, lift->>=-eq-ok}
use lightweight_saas_backend.Text.{Text, trim_space}
use lightweight_saas_backend.Workspace.Model.{is_active_status}

pub record Issued (env : Env) (workspace_public project_public : Text)
    (input : CreateCredentialInput) (ev : Event) (before after : Db) (c : Credential) (token : Text)
    : Type 0 where
  pub p : Project
  pub minted : MintedCredential
  pub resolved : Resolved workspace_public project_public before p
  pub project_active : is_active_status p.status ≡ true
  pub scopes_normalized : normalize_scopes env.table input.scopes ≡ scopes_ok c.scopes
  pub scopes_nonempty : c.scopes ≢ []
  pub expires_later : valid_expiry env.now input.expires_at ≡ ok tt
  pub below : ltb (active_count p.id before.credentials) max_active_credentials ≡ true
  pub mints : mint_credential env.hash env.lookup_raw env.secret_raw ≡ some minted
  pub token_returned : token ≡ minted.token
  pub prefix_stored : c.key_prefix ≡ minted.key_prefix
  pub hash_stored : c.key_hash ≡ minted.key_hash
  pub of_project : c.project_id ≡ p.id
  pub expiry_stored : c.expires_at ≡ input.expires_at
  pub live : c.revoked_at ≡ none
  pub unique_key : any (same_credential_key c) before.credentials ≡ false
  pub recorded : env.writer (about_credential c ev) ≡ true
  pub wrote : after ≡ record before {
    credentials = before.credentials ++ c ∷ [];
    audit = before.audit ++ about_credential c ev ∷ [];
  }

-- A credential is only issued to an active project of the workspace named, for scopes that
-- normalize, below the limit, with an expiry that has not passed; the row holds the lookup segment
-- and the digest that were minted with the returned token, and it is written together with its
-- event and nothing else.
pub create_credential-Issued :
    (env : Env) (workspace_public project_public : Text) (input : CreateCredentialInput)
    (ev : Event) (s t : Session) (c : Credential) (token : Text)
    → create_credential env workspace_public project_public input ev s ≡ (ok (c, token), t)
    → Issued env workspace_public project_public input ev s.db t.db c token
unfolding create_credential fresh_credential
create_credential-Issued env workspace_public project_public input ev s t c token h =
    let (p, u, found_p, rest) =
      >>=-eq-ok (resolve workspace_public project_public) _ s t (c, token) h in
    let (resolved, same) = resolve-eq-ok workspace_public project_public s u p found_p in
    let (q, thawed, rest2) = lift->>=-eq-ok (unfrozen p) _ u t (c, token) rest in
    let (label, labelled, rest3) =
      lift->>=-eq-ok (valid_label (trim_space input.label)) _ u t (c, token) rest2 in
    let (scopes, scoped, rest4) =
      lift->>=-eq-ok (of_normalized (normalize_scopes env.table input.scopes)) _ u t (c, token)
        rest3 in
    let (_, later, rest5) =
      lift->>=-eq-ok (valid_expiry env.now input.expires_at) _ u t (c, token) rest4 in
    let (id, minted, below, mints, is_r, unique, accepted, after) =
      subst (λ db. Minted env input p label scopes ev db t.db (c, token)) same
        (mint_and_insert-eq-ok env input p label scopes ev u t (c, token) rest5) in
    let (normalized, nonempty) = nonempty-eq-ok _ scopes scoped in
    let same_c : c ≡ fresh_credential env p input label scopes id minted = λ i. (is_r i).0 in
    let same_scopes : c.scopes ≡ scopes = ap (λ x. x.scopes) same_c in
    record {
      p = p;
      minted = minted;
      resolved = resolved;
      project_active = unfrozen-eq-ok p q thawed;
      scopes_normalized = normalized ∙ ap scopes_ok (sym same_scopes);
      scopes_nonempty = λ e. nonempty (sym same_scopes ∙ e);
      expires_later = later;
      below = below;
      mints = mints;
      token_returned = λ i. (is_r i).1;
      prefix_stored = ap (λ x. x.key_prefix) same_c;
      hash_stored = ap (λ x. x.key_hash) same_c;
      of_project = ap (λ x. x.project_id) same_c;
      expiry_stored = ap (λ x. x.expires_at) same_c;
      live = ap (λ x. x.revoked_at) same_c;
      unique_key = unique;
      recorded = accepted;
      wrote = after;
    }
