-- ===== src/Project/Service/Atomic.antt =====
-- The mutations of projects and credentials are all or nothing.
use lightweight_saas_backend.Prelude.{List, find}
use lightweight_saas_backend.Audit.{Event}
use lightweight_saas_backend.Authz.Scope.{normalize_scopes}
use lightweight_saas_backend.Project.Model.{Project}
use lightweight_saas_backend.Project.Repository.{
  active_count, count_active_credentials, credential_has_id, driver, get_credential, get_project,
  internal, invalid_credential_id, invalid_id, invalid_workspace_id, project_has_id,
  workspace_not_found,
}
use lightweight_saas_backend.Project.Service.{
  Env, archive, create, insert_project, normalize_name, owned, parsed_id, recorded_project, rename,
  require_workspace, require_writable_workspace, required, resolve, to_internal, unfrozen,
  valid_name, writable,
}
use lightweight_saas_backend.Project.Service.Credentials.{
  CreateCredentialInput, below_limit, create_credential, insert_credential, mint_and_insert,
  of_normalized, owned_credential, revoke_credential, revoke_recorded, valid_expiry, valid_label,
}
use lightweight_saas_backend.Project.Token.{mint_credential}
use lightweight_saas_backend.PublicId.{
  credential_prefix, new, parse, project_prefix, workspace_prefix,
}
use lightweight_saas_backend.Store.{lift, masking}
use lightweight_saas_backend.Store.Laws.{IsAtomic, in_tx-IsAtomic, lift-IsAtomic}
use lightweight_saas_backend.Store.Reads.{
  >>=-Reads, Reads, lift-Reads, masking-Reads, query-Reads, Reads->>=-IsAtomic,
}
use lightweight_saas_backend.Text.{Text, trim_space}
use lightweight_saas_backend.Workspace.Repository.{driver as workspace_driver, get_by_id, has_id}

get_by_id-Reads : (id : Text) → Reads (get_by_id id)
unfolding get_by_id
get_by_id-Reads id = query-Reads workspace_driver (λ db. find (has_id id) db.workspaces)

pub require_workspace-Reads : (public : Text) → Reads (require_workspace public)
unfolding require_workspace
require_workspace-Reads public =
    let identified = parsed_id invalid_workspace_id (parse workspace_prefix public) in
    >>=-Reads (lift identified) _ (lift-Reads identified) (λ id.
      >>=-Reads (masking to_internal (get_by_id id)) _
        (masking-Reads to_internal (get_by_id id) (get_by_id-Reads id))
        (λ row. lift-Reads (required workspace_not_found row)))

get_project-Reads : (id : Text) → Reads (get_project id)
unfolding get_project
get_project-Reads id = query-Reads driver (λ db. find (project_has_id id) db.projects)

pub resolve-Reads :
    (workspace_public project_public : Text) → Reads (resolve workspace_public project_public)
unfolding resolve
resolve-Reads workspace_public project_public =
    let identified = parsed_id invalid_id (parse project_prefix project_public) in
    >>=-Reads (require_workspace workspace_public) _ (require_workspace-Reads workspace_public)
      (λ ws. >>=-Reads (lift identified) _ (lift-Reads identified) (λ id.
        >>=-Reads (masking to_internal (get_project id)) _
          (masking-Reads to_internal (get_project id) (get_project-Reads id))
          (λ row. lift-Reads (owned ws row))))

count-Reads : (id : Text) → Reads (count_active_credentials id)
unfolding count_active_credentials
count-Reads id = query-Reads driver (λ db. active_count id db.credentials)

get_credential-Reads : (id : Text) → Reads (get_credential id)
unfolding get_credential
get_credential-Reads id = query-Reads driver (λ db. find (credential_has_id id) db.credentials)

writable-Reads : (public : Text) → Reads (require_writable_workspace public)
unfolding require_writable_workspace
writable-Reads public =
    >>=-Reads (require_workspace public) _ (require_workspace-Reads public)
      (λ ws. lift-Reads (writable ws))

create-IsAtomic :
    (env : Env) (workspace_public name : Text) (ev : Event)
    → IsAtomic (create env workspace_public name ev)
unfolding create insert_project
create-IsAtomic env workspace_public name ev =
    Reads->>=-IsAtomic (require_writable_workspace workspace_public) _
      (writable-Reads workspace_public)
      (λ ws. lift-IsAtomic (valid_name (normalize_name name)) _ (λ n.
        lift-IsAtomic (required internal (new env.entropy)) _ (λ id. in_tx-IsAtomic driver _)))

rename-IsAtomic :
    (env : Env) (workspace_public project_public name : Text) (ev : Event)
    → IsAtomic (rename env workspace_public project_public name ev)
unfolding rename recorded_project
rename-IsAtomic env workspace_public project_public name ev =
    Reads->>=-IsAtomic (resolve workspace_public project_public) _
      (resolve-Reads workspace_public project_public)
      (λ p.
        lift-IsAtomic (valid_name (normalize_name name)) _
          (λ n. lift-IsAtomic (unfrozen p) _ (λ q. in_tx-IsAtomic driver _)))

archive-IsAtomic :
    (env : Env) (workspace_public project_public : Text) (ev : Event)
    → IsAtomic (archive env workspace_public project_public ev)
unfolding archive recorded_project
archive-IsAtomic env workspace_public project_public ev =
    Reads->>=-IsAtomic (resolve workspace_public project_public) _
      (resolve-Reads workspace_public project_public) (λ p. in_tx-IsAtomic driver _)

minting-IsAtomic :
    (env : Env) (input : CreateCredentialInput) (p : Project) (label : Text) (scopes : List Text)
    (ev : Event)
    → IsAtomic (mint_and_insert env input p label scopes ev)
unfolding mint_and_insert insert_credential
minting-IsAtomic env input p label scopes ev =
    Reads->>=-IsAtomic (masking to_internal (count_active_credentials p.id)) _
      (masking-Reads to_internal (count_active_credentials p.id) (count-Reads p.id))
      (λ n. lift-IsAtomic (below_limit n) _ (λ below.
        lift-IsAtomic (required internal (new env.entropy)) _ (λ id.
          lift-IsAtomic (required internal (mint_credential env.hash env.lookup_raw env.secret_raw))
            _ (λ m. in_tx-IsAtomic driver _))))

create_credential-IsAtomic :
    (env : Env) (workspace_public project_public : Text) (input : CreateCredentialInput)
    (ev : Event)
    → IsAtomic (create_credential env workspace_public project_public input ev)
unfolding create_credential
create_credential-IsAtomic env workspace_public project_public input ev =
    Reads->>=-IsAtomic (resolve workspace_public project_public) _
      (resolve-Reads workspace_public project_public)
      (λ p. lift-IsAtomic (unfrozen p) _ (λ q.
        lift-IsAtomic (valid_label (trim_space input.label)) _ (λ label.
          lift-IsAtomic (of_normalized (normalize_scopes env.table input.scopes)) _ (λ scopes.
            lift-IsAtomic (valid_expiry env.now input.expires_at) _
              (λ later. minting-IsAtomic env input p label scopes ev)))))

revoke_credential-IsAtomic :
    (env : Env) (workspace_public project_public credential_public by : Text) (ev : Event)
    → IsAtomic (revoke_credential env workspace_public project_public credential_public by ev)
unfolding revoke_credential revoke_recorded
revoke_credential-IsAtomic env workspace_public project_public credential_public by ev =
    Reads->>=-IsAtomic (resolve workspace_public project_public) _
      (resolve-Reads workspace_public project_public)
      (λ p.
        lift-IsAtomic (parsed_id invalid_credential_id (parse credential_prefix credential_public))
          _
          (λ id.
            Reads->>=-IsAtomic (masking to_internal (get_credential id)) _
              (masking-Reads to_internal (get_credential id) (get_credential-Reads id))
              (λ existing.
                lift-IsAtomic (owned_credential p existing) _ (λ here. in_tx-IsAtomic driver _))))

-- Every mutation of a project or of a credential, in every session, whichever statements fail,
-- COMMIT included: where it returns an error, the tables and the audit trail are what they were.
pub project_mutations-IsAtomic :
    (env : Env) (workspace_public project_public credential_public name by : Text)
    (input : CreateCredentialInput) (ev : Event)
    → IsAtomic (create env workspace_public name ev)
      × IsAtomic (rename env workspace_public project_public name ev)
      × IsAtomic (archive env workspace_public project_public ev)
      × IsAtomic (create_credential env workspace_public project_public input ev)
      × IsAtomic (revoke_credential env workspace_public project_public credential_public by ev)
project_mutations-IsAtomic env workspace_public project_public credential_public name by input ev =
    (
      create-IsAtomic env workspace_public name ev,
      rename-IsAtomic env workspace_public project_public name ev,
      archive-IsAtomic env workspace_public project_public ev,
      create_credential-IsAtomic env workspace_public project_public input ev,
      revoke_credential-IsAtomic env workspace_public project_public credential_public by ev,
    )
