-- ===== src/Authz/Authorize.antt =====
-- internal/authz/authorize.go and errors.go: the single authorization boundary of /v1.
pub mod Laws
use lightweight_saas_backend.Prelude.{
  Bool, Option, [], false, if◌then◌else◌, none, not, some, ℕ, ◌++◌,
}
use lightweight_saas_backend.Auth.{
  Identity, Principal, ProjectPrincipal, Refusal, has_role, is_operator, is_project,
}
use lightweight_saas_backend.Auth.AdminCheck.{Answer, is_admin}
use lightweight_saas_backend.Authz.Registry.{Requirement, requirement_for}
use lightweight_saas_backend.Authz.Scope.{has_scope}
use lightweight_saas_backend.PublicId.{Parsed, parse, parsed, unparsed, workspace_prefix}
use lightweight_saas_backend.Text.{Text, codes, text_eq}

-- What Authorize reads of a request.
pub record Request : Type 0 where
  pub method : Text
  pub full_path : Text
  pub workspace_param : Text  -- c.Param("workspace_id"), empty where there is none

-- `Config.AdminChecker`; `none` is nil. Its answer may be an error.
abbrev pub Checker : Type 0
Checker = Option (Text → Answer)

abbrev refusal : ℕ → Text → Refusal
refusal s c = record { status = s; code = c; challenge = none }

abbrev pub unauthenticated : Refusal
unauthenticated = refusal 401 (codes "credential_invalid")

abbrev pub workspace_mismatch : Refusal
workspace_mismatch = refusal 403 (codes "workspace_mismatch")

-- The challenge names the scope that was missing.
abbrev pub insufficient_scope : Text → Refusal
insufficient_scope scope = record {
  status = 403;
  code = codes "insufficient_scope";
  challenge = some (codes "Bearer error=\"insufficient_scope\", scope=\"" ++ (scope ++ codes "\""));
}

abbrev pub restricted : Refusal
restricted = refusal 403 (codes "operator_only")

abbrev pub forbidden : Refusal
forbidden = refusal 403 (codes "forbidden")

abbrev pub authorization_unavailable : Refusal
authorization_unavailable = refusal 503 (codes "authorization_unavailable")

abbrev pub rate_limited : Refusal
rate_limited = refusal 429 (codes "rate_limit_exceeded")

-- `c.Next()`, or the refusal.
pub data Verdict : Type 0 where
  next : Verdict
  deny : Refusal → Verdict

abbrev pub operator_role : Text
operator_role = codes "admin"

-- The live check, after the role of the token.
live : Answer → Verdict
live none = deny authorization_unavailable
live (some is_admin) = if not is_admin then deny forbidden else next

check_live : Checker → Text → Verdict
unfolding live
check_live none subject = next
check_live (some checker) subject = live (checker subject)

unfoldable pub authorize_operator : Checker → Identity → Verdict
unfolding check_live
authorize_operator checker id =
    if not (has_role (some id) operator_role) then deny forbidden else check_live checker id.subject

-- Two public ids, as far as they parse.
same_id : Parsed → Parsed → Bool
same_id (parsed a) (parsed b) = text_eq a b
same_id (parsed a) (unparsed e) = false
same_id (unparsed e) b = false

unfoldable pub same_workspace : Text → Text → Bool
unfolding same_id
same_workspace bound from_path =
    same_id (parse workspace_prefix bound) (parse workspace_prefix from_path)

unfoldable pub authorize_project : Text → Requirement → ProjectPrincipal → Verdict
authorize_project path_workspace req p =
    if req.is_operator_only
    then deny restricted
    else if text_eq path_workspace []
    then deny forbidden
    else if not (same_workspace p.workspace_id path_workspace)
    then deny workspace_mismatch
    else if not (has_scope p.scopes req.scope)
    then deny (insufficient_scope req.scope)
    else next

-- The switch on the kind of the principal.
by_kind : Checker → Request → Requirement → Option Identity → Option ProjectPrincipal → Verdict
by_kind checker rq req (some id) p = authorize_operator checker id
by_kind checker rq req none (some p) = authorize_project rq.workspace_param req p
by_kind checker rq req none none = deny unauthenticated

classified : Checker → Request → Principal → Option Requirement → Verdict
unfolding by_kind
classified checker rq p none = deny forbidden
classified checker rq p (some req) = by_kind checker rq req (is_operator p) (is_project p)

-- `Authorize`
unfoldable pub authorize : Checker → Request → Option Principal → Verdict
unfolding classified
authorize checker rq none = deny unauthenticated
authorize checker rq (some p) = classified checker rq p (requirement_for rq.method rq.full_path)

-- `RequireOperator`
unfoldable pub require_operator : Option Principal → Verdict
require_operator none = deny unauthenticated
require_operator (some p) = elim (is_operator p) [ none ↦ deny restricted | some id ↦ next ]
