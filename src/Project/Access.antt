-- ===== src/Project/Access.antt =====
-- From the Authorization header to the verdict: internal/auth/principal.go, internal/project/
-- authenticator.go and internal/authz/authorize.go, composed as the routes of /v1 compose them.
mod Tests
use mathlib.Core.Path.{subst}
use lightweight_saas_backend.Prelude.{
  Option, ap, arith, false, inl, none, refl, some, sym, true, ℕ, ◌∙◌, ◌≡◌,
}
use lightweight_saas_backend.Auth.{
  Lookup, ProjectPrincipal, Provider, authenticate_principal, extract_bearer, is_project_token,
}
use lightweight_saas_backend.Auth.Laws.{principal-authenticate_principal, principal_of_lookup}
use lightweight_saas_backend.Authz.Authorize.{Checker, Request, authorize, next}
use lightweight_saas_backend.Authz.Authorize.Laws.{SameWorkspace, authorize-project_iff}
use lightweight_saas_backend.Authz.Registry.{Requirement, requirement_for}
use lightweight_saas_backend.Authz.Scope.{has_scope}
use lightweight_saas_backend.Project.Authenticator.{
  as_lookup, authenticate_credential, principal_of,
}
use lightweight_saas_backend.Project.Authenticator.Laws.{Genuine, authenticate_credential-Genuine}
use lightweight_saas_backend.Project.Model.{Credential, Project, workspace_public_id}
use lightweight_saas_backend.Project.Repository.{Error}
use lightweight_saas_backend.Project.Token.{Hash}
use lightweight_saas_backend.Store.{Db, Result, Session, err, ok}
use lightweight_saas_backend.Text.{Text}

-- What the middleware is given for a project authenticator.
abbrev pub project_lookup : Hash → ℕ → Session → Text → Lookup
project_lookup hash now s token = as_lookup (authenticate_credential hash now token s).0

-- What a machine caller must show for a request to pass.
abbrev pub HasAccess : Hash → ℕ → Text → Db → Request → Type 0
HasAccess hash now raw db rq =
    (c : Credential) × (q : Project) × (req : Requirement) × Genuine hash now raw db c q
    × (requirement_for rq.method rq.full_path ≡ some req)
    × (req.is_operator_only ≡ false)
    × SameWorkspace (workspace_public_id q) rq.workspace_param
    × (has_scope c.scopes req.scope ≡ true)

authorize-nobody : (checker : Checker) (rq : Request) → ¬ (authorize checker rq none ≡ next)
unfolding authorize
authorize-nobody checker rq h = absurd (ground arith)

access_of_result :
    (hash : Hash) (now : ℕ) (raw : Text) (s t : Session) (checker : Checker) (rq : Request)
    (r : Result Error (Option ProjectPrincipal))
    → authenticate_credential hash now raw s ≡ (r, t)
    → authorize checker rq (principal_of_lookup (as_lookup r)) ≡ next
    → HasAccess hash now raw s.db rq
unfolding as_lookup principal_of
access_of_result hash now raw s t checker rq (err e) a h = absurd (authorize-nobody checker rq h)
access_of_result hash now raw s t checker rq (ok none) a h = absurd (authorize-nobody checker rq h)
access_of_result hash now raw s t checker rq (ok (some p)) a h =
    let (c, q, g, same) = authenticate_credential-Genuine hash now raw s t p a in
    let (req, e, scoped_route, mine, held) = (authorize-project_iff checker rq p).0 h in
    (
      c,
      q,
      req,
      g,
      e,
      scoped_route,
      subst (λ x. SameWorkspace x.workspace_id rq.workspace_param) same mine,
      subst (λ x. has_scope x.scopes req.scope ≡ true) same held,
    )

-- A request whose bearer token carries the prefix of project credentials passes authentication and
-- authorization only if the token stands for a stored credential, neither revoked nor expired, of an
-- active project; the route is open to projects; the workspace of the path is the project's; and the
-- credential holds the scope of the route. This holds whatever the OIDC provider and the live admin
-- check say, and whichever statements fail.
pub project_request-HasAccess :
    (hash : Hash) (now : ℕ) (s : Session) (provider : Option Provider) (checker : Checker)
    (rq : Request) (header raw : Text)
    → extract_bearer header ≡ inl raw
    → is_project_token raw ≡ true
    → authorize checker rq
        (authenticate_principal provider (some (project_lookup hash now s)) header).principal
      ≡ next
    → HasAccess hash now raw s.db rq
project_request-HasAccess hash now s provider checker rq header raw e t h =
    let same =
      principal-authenticate_principal provider (project_lookup hash now s) header raw e t in
    let run = authenticate_credential hash now raw s in
    access_of_result hash now raw s run.1 checker rq run.0 refl
      (ap (authorize checker rq) (sym same) ∙ h)
