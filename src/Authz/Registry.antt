-- ===== src/Authz/Registry.antt =====
-- internal/authz/registry.go: the authorization table of /v1.
pub mod Laws
use lightweight_saas_backend.Prelude.{
  Bool, List, Option, [], false, if◌then◌else◌, none, some, true, ◌++◌, ◌∷◌,
}
use lightweight_saas_backend.Authz.Scope.{
  audit_read, invitations_read, invitations_write, roles_read, roles_write, sessions_read,
  sessions_revoke, users_read, users_write,
}
use lightweight_saas_backend.Text.{Text, codes, text_eq}

-- The classification of a route; the scope is empty where it is for operators only.
pub record Requirement : Type 0 where
  pub is_operator_only : Bool
  pub scope : Text

abbrev pub operator_only : Requirement
operator_only = record { is_operator_only = true; scope = [] }

abbrev pub scoped : Text → Requirement
scoped s = record { is_operator_only = false; scope = s }

-- "METHOD /path", with gin's pattern as the path.
abbrev pub route_key : Text → Text → Text
route_key method full_path = method ++ (b' ' ∷ full_path)

abbrev pub v1_workspaces : Text
v1_workspaces = codes "/v1/workspaces"

abbrev pub v1_workspace : Text
v1_workspace = codes "/v1/workspaces/:workspace_id"

abbrev pub v1_project : Text
v1_project = v1_workspace ++ codes "/projects/:project_id"

-- The map, in the order of the source.
unfoldable pub registry : List (Text × Requirement)
registry =
    (route_key (codes "GET") v1_workspaces, operator_only)
    ∷ (route_key (codes "POST") v1_workspaces, operator_only)
    ∷ (route_key (codes "GET") v1_workspace, operator_only)
    ∷ (route_key (codes "PATCH") v1_workspace, operator_only)
    ∷ (route_key (codes "POST") (v1_workspace ++ codes "/archive"), operator_only)
    ∷ (route_key (codes "GET") (v1_workspace ++ codes "/connections"), operator_only)
    ∷ (route_key (codes "POST") (v1_workspace ++ codes "/connections"), operator_only)
    ∷ (route_key (codes "GET") (v1_workspace ++ codes "/connections/:connection_id"), operator_only)
    ∷ (
      route_key (codes "PATCH") (v1_workspace ++ codes "/connections/:connection_id"),
      operator_only,
    )
    ∷ (
      route_key (codes "DELETE") (v1_workspace ++ codes "/connections/:connection_id"),
      operator_only,
    )
    ∷ (
      route_key (codes "POST") (v1_workspace ++ codes "/connections/:connection_id/verify"),
      operator_only,
    )
    ∷ (
      route_key (codes "POST") (v1_workspace ++ codes "/connections/:connection_id/activate"),
      operator_only,
    )
    ∷ (
      route_key (codes "POST") (v1_workspace ++ codes "/connections/:connection_id/retire"),
      operator_only,
    )
    ∷ (route_key (codes "GET") (v1_workspace ++ codes "/projects"), operator_only)
    ∷ (route_key (codes "POST") (v1_workspace ++ codes "/projects"), operator_only)
    ∷ (route_key (codes "GET") v1_project, operator_only)
    ∷ (route_key (codes "PATCH") v1_project, operator_only)
    ∷ (route_key (codes "POST") (v1_project ++ codes "/archive"), operator_only)
    ∷ (route_key (codes "GET") (v1_project ++ codes "/credentials"), operator_only)
    ∷ (route_key (codes "POST") (v1_project ++ codes "/credentials"), operator_only)
    ∷ (
      route_key (codes "POST") (v1_project ++ codes "/credentials/:credential_id/revoke"),
      operator_only,
    )
    ∷ (route_key (codes "GET") (codes "/v1/project-scopes"), operator_only)
    ∷ (route_key (codes "GET") (v1_workspace ++ codes "/users"), (scoped users_read))
    ∷ (route_key (codes "POST") (v1_workspace ++ codes "/users"), (scoped users_write))
    ∷ (route_key (codes "GET") (v1_workspace ++ codes "/users/:user_id"), (scoped users_read))
    ∷ (route_key (codes "PATCH") (v1_workspace ++ codes "/users/:user_id"), (scoped users_write))
    ∷ (route_key (codes "DELETE") (v1_workspace ++ codes "/users/:user_id"), (scoped users_write))
    ∷ (
      route_key (codes "POST") (v1_workspace ++ codes "/users/:user_id/reset-password"),
      (scoped users_write),
    )
    ∷ (route_key (codes "PUT") (v1_workspace ++ codes "/users/:user_id/password"), operator_only)
    ∷ (route_key (codes "GET") (v1_workspace ++ codes "/users/:user_id/roles"), (scoped roles_read))
    ∷ (
      route_key (codes "POST") (v1_workspace ++ codes "/users/:user_id/roles"),
      (scoped roles_write),
    )
    ∷ (
      route_key (codes "DELETE") (v1_workspace ++ codes "/users/:user_id/roles/:role_name"),
      (scoped roles_write),
    )
    ∷ (
      route_key (codes "GET") (v1_workspace ++ codes "/users/:user_id/sessions"),
      (scoped sessions_read),
    )
    ∷ (
      route_key (codes "DELETE") (v1_workspace ++ codes "/users/:user_id/sessions"),
      (scoped sessions_revoke),
    )
    ∷ (route_key (codes "GET") (v1_workspace ++ codes "/sessions"), (scoped sessions_read))
    ∷ (
      route_key (codes "DELETE") (v1_workspace ++ codes "/sessions/:session_id"),
      (scoped sessions_revoke),
    )
    ∷ (route_key (codes "GET") (v1_workspace ++ codes "/roles"), (scoped roles_read))
    ∷ (route_key (codes "POST") (v1_workspace ++ codes "/roles"), (scoped roles_write))
    ∷ (route_key (codes "GET") (v1_workspace ++ codes "/roles/:role_name"), (scoped roles_read))
    ∷ (route_key (codes "PATCH") (v1_workspace ++ codes "/roles/:role_name"), (scoped roles_write))
    ∷ (route_key (codes "DELETE") (v1_workspace ++ codes "/roles/:role_name"), (scoped roles_write))
    ∷ (
      route_key (codes "GET") (v1_workspace ++ codes "/roles/:role_name/users"),
      (scoped roles_read),
    )
    ∷ (route_key (codes "GET") (v1_workspace ++ codes "/audit"), (scoped audit_read))
    ∷ (route_key (codes "GET") (v1_workspace ++ codes "/invitations"), (scoped invitations_read))
    ∷ (route_key (codes "POST") (v1_workspace ++ codes "/invitations"), (scoped invitations_write))
    ∷ (
      route_key (codes "DELETE") (v1_workspace ++ codes "/invitations/:invitation_id"),
      (scoped invitations_write),
    )
    ∷ (
      route_key (codes "POST") (v1_workspace ++ codes "/invitations/:invitation_id/resend"),
      (scoped invitations_write),
    )
    ∷ []

-- Reading a Go map from texts.
unfoldable pub lookup_key : Text → List (Text × Requirement) → Option Requirement
lookup_key k [] = none
lookup_key k ((j, r) ∷ m) = if text_eq j k then some r else lookup_key k m

-- `RequirementFor`
unfoldable pub requirement_for : Text → Text → Option Requirement
requirement_for method full_path = lookup_key (route_key method full_path) registry

-- `ValidateRegistry`: the mounted routes that have no entry; none of them where it succeeds.
unfoldable pub validate_registry : List Text → List Text
validate_registry [] = []
validate_registry (r ∷ mounted) =
    let rest = validate_registry mounted in
    elim (lookup_key r registry) [ none ↦ r ∷ rest | some _ ↦ rest ]
