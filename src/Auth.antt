-- ===== src/Auth.antt =====
-- internal/auth/identity.go, principal.go and middleware.go: who is the caller.
pub mod AdminCheck
pub mod Laws
mod Tests
use lightweight_saas_backend.Prelude.{
  Bool, List, Option, [], any, false, if◌then◌else◌, inl, inr, none, some, true, ℕ, ◌∷◌, ◌⊎◌,
}
use lightweight_saas_backend.Text.{Text, codes, strip_prefix, text_eq, trim_space}

-- `Identity`; the raw claims are left out, no function here reads them.
pub record Identity : Type 0 where
  pub subject : Text
  pub email : Text
  pub username : Text
  pub roles : List Text
  pub expires_at : ℕ

-- `HasRole`; a nil identity has none.
unfoldable pub has_role : Option Identity → Text → Bool
has_role none role = false
has_role (some id) role = any (λ r. text_eq r role) id.roles

pub data PrincipalType : Type 0 where
  operator_type project_type : PrincipalType

-- A machine caller: its project, its credential, the workspace it is bound to, what it may do.
pub record ProjectPrincipal : Type 0 where
  pub project_id : Text
  pub project_name : Text
  pub credential_id : Text
  pub workspace_id : Text
  pub scopes : List Text

-- The union: a type and two pointers.
pub record Principal : Type 0 where
  pub kind : PrincipalType
  pub operator : Option Identity
  pub project : Option ProjectPrincipal

unfoldable pub new_operator_principal : Option Identity → Principal
new_operator_principal id = record { kind = operator_type; operator = id; project = none }

unfoldable pub new_project_principal : ProjectPrincipal → Principal
new_project_principal p = record { kind = project_type; operator = none; project = some p }

-- The operator of a principal of that type, where the pointer is not nil.
abbrev operator_of : PrincipalType → Option Identity → Option Identity
operator_of operator_type id = id
operator_of project_type id = none

abbrev project_of : PrincipalType → Option ProjectPrincipal → Option ProjectPrincipal
project_of operator_type p = none
project_of project_type p = p

-- `IsOperator`, with the identity where it holds.
unfoldable pub is_operator : Principal → Option Identity
is_operator p = operator_of p.kind p.operator

-- `IsProject`, with the project where it holds.
unfoldable pub is_project : Principal → Option ProjectPrincipal
is_project p = project_of p.kind p.project

pub data EventKind : Type 0 where
  missing_header malformed_header validation_failed token_validated forbidden_event : EventKind

-- `AuthEvent` with its kind and subject; reason, path and method are text for the log.
pub record AuthEvent : Type 0 where
  pub kind : EventKind
  pub subject : Text

-- An aborted request: the status, the code and the WWW-Authenticate header.
pub record Refusal : Type 0 where
  pub status : ℕ
  pub code : Text
  pub challenge : Option Text

-- What a middleware leaves behind: what it stored in the context, what it emitted, and the refusal,
-- `none` where it called `c.Next()`.
pub record Outcome : Type 0 where
  pub identity : Option Identity
  pub principal : Option Principal
  pub events : List AuthEvent
  pub refusal : Option Refusal

-- The single public authentication failure.
abbrev pub unauthorized : Refusal
unauthorized = record {
  status = 401;
  code = codes "credential_invalid";
  challenge = some (codes "Bearer error=\"invalid_token\"");
}

abbrev pub verification_unavailable : Refusal
verification_unavailable = record {
  status = 503;
  code = codes "authorization_unavailable";
  challenge = none;
}

abbrev refused : List AuthEvent → Refusal → Outcome
refused events r = record { identity = none; principal = none; events = events; refusal = some r }

abbrev pub project_token_prefix : Text
project_token_prefix = codes "lw_sk_"

-- `extractBearer`: the token, or the kind of the fault; the header is empty where it is missing.
unfoldable pub extract_bearer : Text → Text ⊎ EventKind
extract_bearer h =
    if text_eq h [] then inr missing_header else elim (strip_prefix (codes "Bearer ") h) [
      | none ↦ inr malformed_header
      | some rest ↦
          let tok = trim_space rest in if text_eq tok [] then inr malformed_header else inl tok
    ]

-- The answer of a `ProjectAuthenticator`: an error, (nil, nil), or the principal.
pub data Lookup : Type 0 where
  undecided rejected : Lookup
  found : ProjectPrincipal → Lookup

-- `AuthProvider.ValidateToken`; `none` is an error. The pointer may be nil in neither.
abbrev pub Provider : Type 0
Provider = Text → Option Identity

abbrev event : EventKind → Text → AuthEvent
event k s = record { kind = k; subject = s }

-- `authenticateOperator` after the nil check of the provider.
operator_outcome : Option Identity → Outcome
unfolding new_operator_principal
operator_outcome none = refused (event validation_failed [] ∷ []) unauthorized
operator_outcome (some id) = record {
  identity = some id;
  principal = some (new_operator_principal (some id));
  events = event token_validated id.subject ∷ [];
  refusal = none;
}

authenticate_operator : Option Provider → Text → Outcome
unfolding operator_outcome
authenticate_operator none raw = refused [] unauthorized
authenticate_operator (some validate) raw = operator_outcome (validate raw)

project_outcome : Lookup → Outcome
unfolding new_project_principal
project_outcome undecided = refused (event validation_failed [] ∷ []) verification_unavailable
project_outcome rejected = refused (event validation_failed [] ∷ []) unauthorized
project_outcome (found p) = record {
  identity = none;
  principal = some (new_project_principal p);
  events = event token_validated p.project_id ∷ [];
  refusal = none;
}

authenticate_project : Option (Text → Lookup) → Text → Outcome
unfolding project_outcome
authenticate_project none raw = refused [] unauthorized
authenticate_project (some lookup) raw = project_outcome (lookup raw)

-- Whether the token carries the prefix of project credentials.
unfoldable pub is_project_token : Text → Bool
is_project_token raw = elim (strip_prefix project_token_prefix raw) [ none ↦ false | some _ ↦ true ]

dispatch : Option Provider → Option (Text → Lookup) → Text ⊎ EventKind → Outcome
unfolding authenticate_operator authenticate_project
dispatch provider projects (inr fault) = refused (event fault [] ∷ []) unauthorized
dispatch provider projects (inl raw) =
    if is_project_token raw
    then authenticate_project projects raw
    else authenticate_operator provider raw

-- `AuthenticatePrincipal` on the Authorization header.
unfoldable pub authenticate_principal : Option Provider → Option (Text → Lookup) → Text → Outcome
unfolding dispatch
authenticate_principal provider projects header = dispatch provider projects (extract_bearer header)
