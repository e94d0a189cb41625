-- ===== src/Project/Access/Tests.antt =====
-- A request of the second project for the users of its workspace.
use lightweight_saas_backend.Prelude.{[], inl, none, refl, some, true, ◌++◌, ◌≡◌}
use lightweight_saas_backend.Auth.{
  authenticate_principal, extract_bearer, is_operator, is_project, is_project_token,
  new_project_principal,
}
use lightweight_saas_backend.Authz.Authorize.{authorize, authorize_project, next, same_workspace}
use lightweight_saas_backend.Authz.Registry.{lookup_key, registry, requirement_for}
use lightweight_saas_backend.Authz.Scope.{has_scope}
use lightweight_saas_backend.Examples.{plain, second_token, two, users_route}
use lightweight_saas_backend.Project.Access.{HasAccess, project_lookup, project_request-HasAccess}
use lightweight_saas_backend.Project.Authenticator.{
  accepts, as_lookup, authenticate_credential, decide, principal_of, touch,
}
use lightweight_saas_backend.Project.Model.{
  is_expired, is_revoked, is_usable, needs_last_used_touch, workspace_public_id,
}
use lightweight_saas_backend.Project.Repository.{find_by_key_prefix, project_of_credential}
use lightweight_saas_backend.Project.Token.{is_base32_lower, parse_token, secret_matches}
use lightweight_saas_backend.PublicId.{format, parse}
use lightweight_saas_backend.Store.{Session, query, statement, written}
use lightweight_saas_backend.Text.{
  Text, codes, cut, len, strip_prefix, text_eq, to_lower, trim_space,
}

abbrev header : Text
header = codes "Bearer " ++ second_token

abbrev quiet : Session
quiet = record { db = two; faults = [] }

extracted_token : extract_bearer header ≡ inl second_token
unfolding extract_bearer text_eq strip_prefix trim_space
extracted_token = refl

of_a_project : is_project_token second_token ≡ true
unfolding is_project_token strip_prefix
of_a_project = refl

passed :
    authorize none users_route
      (authenticate_principal none (some (project_lookup plain 20 quiet)) header).principal
    ≡ next
unfolding authorize authenticate_principal extract_bearer is_project_token text_eq strip_prefix
    trim_space as_lookup authenticate_credential parse_token find_by_key_prefix
    project_of_credential query statement written len cut is_base32_lower decide accepts
    secret_matches is_usable is_revoked is_expired touch needs_last_used_touch requirement_for
    lookup_key registry is_operator is_project new_project_principal authorize_project
    same_workspace parse to_lower has_scope principal_of workspace_public_id format
passed = refl

project_request-HasAccess_example : HasAccess plain 20 second_token two users_route
project_request-HasAccess_example =
    project_request-HasAccess plain 20 quiet none none users_route header second_token
      extracted_token of_a_project passed
