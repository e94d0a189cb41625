-- ===== src/Authz/Authorize/Laws.antt =====
-- Exactly when a request passes the authorization boundary.
use mathlib.Core.Path.{subst}
use lightweight_saas_backend.Prelude.{
  Bool, Bool-cases, Option, [], ap, arith, false, inl, inr, none, refl, some, sym, true, ◌↔◌, ◌∙◌,
  ◌≡◌, ◌≢◌, ◌⊎◌,
}
use lightweight_saas_backend.Auth.{
  Identity, ProjectPrincipal, has_role, is_operator, is_project, new_operator_principal,
  new_project_principal,
}
use lightweight_saas_backend.Authz.Authorize.{
  Checker, Request, authorize, authorize_operator, authorize_project, check_live, deny, forbidden,
  live, next, operator_role, same_id, same_workspace, workspace_mismatch,
}
use lightweight_saas_backend.Authz.Registry.{Requirement, requirement_for}
use lightweight_saas_backend.Authz.Scope.{has_scope}
use lightweight_saas_backend.PublicId.{
  ParseError, Parsed, malformed, parse, parsed, unparsed, workspace_prefix,
}
use lightweight_saas_backend.Text.{Text, text_eq, trim_space}
use lightweight_saas_backend.Text.Laws.{text_eq_iff, text_eq_refl, text_ne}

-- Both spellings of an id parse to the same UUID.
abbrev pub SameWorkspace : Text → Text → Type 0
SameWorkspace bound from_path =
    (u : Text) × (parse workspace_prefix bound ≡ parsed u)
    × (parse workspace_prefix from_path ≡ parsed u)

PublicId-cases :
    (r : Parsed) → ((u : Text) × (r ≡ parsed u)) ⊎ ((e : ParseError) × (r ≡ unparsed e))
PublicId-cases (parsed u) = inl (u, refl)
PublicId-cases (unparsed e) = inr (e, refl)

same_id_sound : (a b : Parsed) → same_id a b ≡ true → (u : Text) × (a ≡ parsed u) × (b ≡ parsed u)
unfolding same_id
same_id_sound (parsed a) (parsed b) h = (a, refl, ap parsed (sym ((text_eq_iff a b).0 h)))
same_id_sound (parsed a) (unparsed e) h = cc
same_id_sound (unparsed e) b h = cc

same_workspace_iff :
    (bound from_path : Text)
    → (same_workspace bound from_path ≡ true) ↔ SameWorkspace bound from_path
unfolding same_workspace
same_workspace_iff bound from_path =
    ((λ h. same_id_sound _ _ h), λ s. rw (s.1, s.2) (text_eq_refl s.0))

parse-nil : (prefix : Text) → parse prefix [] ≡ unparsed malformed
unfolding parse trim_space text_eq
parse-nil prefix = refl

same_workspace-ne-nil :
    (bound from_path : Text) → same_workspace bound from_path ≡ true → text_eq from_path [] ≡ false
same_workspace-ne-nil bound from_path h =
    let (u, a, b) = (same_workspace_iff bound from_path).0 h in
    text_ne from_path []
      (λ e. nil_does_not_parse u (subst (λ t. parse workspace_prefix t ≡ parsed u) e b))
  where
    nil_does_not_parse : (u : Text) → parse workspace_prefix [] ≡ parsed u → ⊥
    nil_does_not_parse u e = cc (parse-nil workspace_prefix)

module _ (checker : Checker) (rq : Request) (q : ProjectPrincipal) where
  project_verdict :
      (r : Option Requirement)
      → requirement_for rq.method rq.full_path ≡ r
      → authorize checker rq (some (new_project_principal q))
        ≡ elim r [ none ↦ deny forbidden | some req ↦ authorize_project rq.workspace_param req q ]
  unfolding authorize new_project_principal is_operator is_project
  project_verdict none e = rw (e, authorize)
  project_verdict (some req) e = rw (e, authorize)

authorize_project_iff :
    (path : Text) (req : Requirement) (q : ProjectPrincipal)
    → (authorize_project path req q ≡ next) ↔ (
        (req.is_operator_only ≡ false)
        × (same_workspace q.workspace_id path ≡ true)
        × (has_scope q.scopes req.scope ≡ true))
unfolding authorize_project
authorize_project_iff path req q =
    ((λ h. ground arith), λ h. ground (arith, same_workspace-ne-nil q.workspace_id path h.1))

not_true : {b : Bool} → ¬ (b ≡ true) → b ≡ false
not_true {b} h = ground arith

mismatch :
    (path : Text) (req : Requirement) (q : ProjectPrincipal)
    → req.is_operator_only ≡ false
    → text_eq path [] ≡ false
    → same_workspace q.workspace_id path ≡ false
    → authorize_project path req q ≡ deny workspace_mismatch
unfolding authorize_project
mismatch path req q o n s = rw (o, n, s)

-- The grant of a project credential.
abbrev pub MayProject : Request → ProjectPrincipal → Type 0
MayProject rq q =
    (req : Requirement) × (requirement_for rq.method rq.full_path ≡ some req)
    × (req.is_operator_only ≡ false)
    × SameWorkspace q.workspace_id rq.workspace_param
    × (has_scope q.scopes req.scope ≡ true)

module _ (checker : Checker) (rq : Request) (q : ProjectPrincipal) where
  granted : MayProject rq q → authorize checker rq (some (new_project_principal q)) ≡ next
  granted (req, e, open_to_projects, same, held) =
      project_verdict checker rq q (some req) e
      ∙ (authorize_project_iff rq.workspace_param req q).1
          (open_to_projects, (same_workspace_iff q.workspace_id rq.workspace_param).1 same, held)

  needed :
      (r : Option Requirement)
      → requirement_for rq.method rq.full_path ≡ r
      → authorize checker rq (some (new_project_principal q)) ≡ next
      → MayProject rq q
  needed none e h = absurd (ground (arith, project_verdict checker rq q none e))
  needed (some req) e h =
      let passed : authorize_project rq.workspace_param req q ≡ next =
        sym (project_verdict checker rq q (some req) e) ∙ h in
      let (open_to_projects, same, held) =
        (authorize_project_iff rq.workspace_param req q).0 passed in
      (
        req,
        e,
        open_to_projects,
        (same_workspace_iff q.workspace_id rq.workspace_param).0 same,
        held,
      )

-- A project credential passes exactly if the route is classified and open to projects, the id in
-- the path and the credential's own workspace parse to the same UUID, and the credential holds the
-- scope that the route asks for; the live admin check has no part in it.
pub authorize-project_iff :
    (checker : Checker) (rq : Request) (q : ProjectPrincipal)
    → (authorize checker rq (some (new_project_principal q)) ≡ next) ↔ (
        (req : Requirement) × (requirement_for rq.method rq.full_path ≡ some req)
        × (req.is_operator_only ≡ false)
        × SameWorkspace q.workspace_id rq.workspace_param
        × (has_scope q.scopes req.scope ≡ true))
authorize-project_iff checker rq q =
    (needed checker rq q (requirement_for rq.method rq.full_path) refl, granted checker rq q)

-- Outside its own workspace a project credential learns nothing: on every route open to projects the
-- refusal is the same, whatever scopes it holds and whether or not the id in the path is well-formed.
pub authorize-project_mismatch :
    (checker : Checker) (rq : Request) (q : ProjectPrincipal) (req : Requirement)
    → requirement_for rq.method rq.full_path ≡ some req
    → req.is_operator_only ≡ false
    → rq.workspace_param ≢ []
    → ¬ (SameWorkspace q.workspace_id rq.workspace_param)
    → authorize checker rq (some (new_project_principal q)) ≡ deny workspace_mismatch
authorize-project_mismatch checker rq q req e scoped_route named other =
    project_verdict checker rq q (some req) e
    ∙ mismatch rq.workspace_param req q scoped_route (text_ne rq.workspace_param [] named)
        (not_true (λ h. other ((same_workspace_iff q.workspace_id rq.workspace_param).0 h)))

-- What the live check must say where there is one.
abbrev pub Consents : Checker → Text → Type 0
Consents none subject = Unit
Consents (some checker) subject = checker subject ≡ some true

check_live_iff :
    (checker : Checker) (subject : Text)
    → (check_live checker subject ≡ next) ↔ Consents checker subject
unfolding check_live live
check_live_iff none subject = ((λ h. tt), λ h. refl)
check_live_iff (some checker) subject = ((λ h. ground arith), λ h. rw h)

authorize_operator_iff :
    (checker : Checker) (id : Identity)
    → (authorize_operator checker id ≡ next)
      ↔ ((has_role (some id) operator_role ≡ true) × Consents checker id.subject)
unfolding authorize_operator
authorize_operator_iff checker id =
    let (to, from) = check_live_iff checker id.subject in
    elim (Bool-cases (has_role (some id) operator_role)) [
      | inl e ↦ rw e ((λ h. (refl, to h)), λ h. from h.1)
      | inr e ↦ rw e ((λ h. absurd (cc)), λ h. absurd (cc h.0))
    ]

operator_verdict :
    (checker : Checker) (rq : Request) (id : Identity) (r : Option Requirement)
    → requirement_for rq.method rq.full_path ≡ r
    → authorize checker rq (some (new_operator_principal (some id)))
      ≡ elim r [ none ↦ deny forbidden | some req ↦ authorize_operator checker id ]
unfolding authorize new_operator_principal is_operator is_project
operator_verdict checker rq id none e = rw (e, authorize)
operator_verdict checker rq id (some req) e = rw (e, authorize)

-- The grant of an operator.
abbrev pub MayOperator : Checker → Request → Identity → Type 0
MayOperator checker rq id =
    ((req : Requirement) × (requirement_for rq.method rq.full_path ≡ some req))
    × (has_role (some id) operator_role ≡ true)
    × Consents checker id.subject

operator_needed :
    (checker : Checker) (rq : Request) (id : Identity) (r : Option Requirement)
    → requirement_for rq.method rq.full_path ≡ r
    → authorize checker rq (some (new_operator_principal (some id))) ≡ next
    → MayOperator checker rq id
operator_needed checker rq id none e h =
    absurd (ground (arith, operator_verdict checker rq id none e))
operator_needed checker rq id (some req) e h =
    let (role, consent) =
      (authorize_operator_iff checker id).0
        (sym (operator_verdict checker rq id (some req) e) ∙ h) in
    ((req, e), role, consent)

-- An operator passes exactly if the route is classified, the token names the role admin, and the
-- live check, where there is one, answers that the subject is an admin.
pub authorize-operator_iff :
    (checker : Checker) (rq : Request) (id : Identity)
    → (authorize checker rq (some (new_operator_principal (some id))) ≡ next)
      ↔ MayOperator checker rq id
authorize-operator_iff checker rq id = (
  operator_needed checker rq id (requirement_for rq.method rq.full_path) refl,
  λ h.
      operator_verdict checker rq id (some h.0.0) h.0.1
      ∙ (authorize_operator_iff checker id).1 (h.1, h.2),
)
