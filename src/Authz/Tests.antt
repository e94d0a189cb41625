-- ===== src/Authz/Tests.antt =====
-- Concrete requests for the users of a workspace.
use lightweight_saas_backend.Prelude.{
  All, List, [], any, arith, false, none, refl, some, true, ◌++◌, ◌↔◌, ◌∷◌, ◌≡◌,
}
use lightweight_saas_backend.Auth.{new_operator_principal, new_project_principal}
use lightweight_saas_backend.Authz.Authorize.{Request, authorize, next}
use lightweight_saas_backend.Authz.Authorize.Laws.{
  MayOperator, SameWorkspace, authorize-operator_iff, authorize-project_iff,
}
use lightweight_saas_backend.Authz.Registry.{
  Requirement, lookup_key, registry, requirement_for, scoped, v1_workspace,
}
use lightweight_saas_backend.Authz.Registry.Laws.{requirement_for_scoped}
use lightweight_saas_backend.Authz.Scope.{
  has_scope, is_known_scope, normalize_scopes, scopes_ok, users_read,
}
use lightweight_saas_backend.Authz.Scope.Laws.{NoDuplicates, cleaned, normalize_scopes_correct}
use lightweight_saas_backend.Examples.{caller, operator, users_route, ws_id}
use lightweight_saas_backend.PublicId.{parse}
use lightweight_saas_backend.Text.{
  Text, codes, cut, len, strip_prefix, text_eq, to_lower, trim_space,
}

abbrev foreign_route : Request
foreign_route = record users_route {
  workspace_param = codes "ws_00000000-0000-4000-8000-000000000000";
}

users_entry :
    requirement_for (codes "GET") (v1_workspace ++ codes "/users") ≡ some (scoped users_read)
unfolding requirement_for lookup_key registry text_eq
users_entry = refl

home : SameWorkspace caller.workspace_id users_route.workspace_param
unfolding parse text_eq len trim_space to_lower cut
home = (ws_id, refl, refl)

away : ¬ (SameWorkspace caller.workspace_id foreign_route.workspace_param)
unfolding parse text_eq len trim_space to_lower cut
away (u, a, b) = absurd (ground arith)

holds : has_scope caller.scopes users_read ≡ true
unfolding has_scope text_eq
holds = refl

passes : authorize none users_route (some (new_project_principal caller)) ≡ next
passes =
    (authorize-project_iff none users_route caller).1
      (scoped users_read, users_entry, refl, home, holds)

authorize-project_iff_example :
    (authorize none users_route (some (new_project_principal caller)) ≡ next) ↔ (
      (req : Requirement) × (requirement_for users_route.method users_route.full_path ≡ some req)
      × (req.is_operator_only ≡ false)
      × SameWorkspace caller.workspace_id users_route.workspace_param
      × (has_scope caller.scopes req.scope ≡ true))
authorize-project_iff_example = authorize-project_iff none users_route caller

authorize-operator_iff_example :
    (authorize (some (λ s. some true)) users_route (some (new_operator_principal (some operator)))
      ≡ next)
    ↔ MayOperator (some (λ s. some true)) users_route operator
authorize-operator_iff_example = authorize-operator_iff (some (λ s. some true)) users_route operator

requirement_for_scoped_example :
    ((rest : Text) × (v1_workspace ++ codes "/users" ≡ (v1_workspace ++ codes "/") ++ rest))
    × (strip_prefix (v1_workspace ++ codes "/connections") (v1_workspace ++ codes "/users") ≡ none)
    × (strip_prefix (v1_workspace ++ codes "/projects") (v1_workspace ++ codes "/users") ≡ none)
    × (is_known_scope users_read ≡ true)
requirement_for_scoped_example =
    requirement_for_scoped (codes "GET") (v1_workspace ++ codes "/users") (scoped users_read)
      (ground arith) users_entry refl

normalize_scopes_correct_example :
    (All (λ s. is_known_scope s ≡ true) (cleaned (λ c. c) (codes " Users:Read " ∷ []))
      → (result : List Text) × (normalize_scopes (λ c. c) (codes " Users:Read " ∷ [])
          ≡ scopes_ok result))
    × ((result : List Text)
        → normalize_scopes (λ c. c) (codes " Users:Read " ∷ []) ≡ scopes_ok result
        → All (λ s. is_known_scope s ≡ true) (cleaned (λ c. c) (codes " Users:Read " ∷ []))
          × NoDuplicates result
          × ((s : Text)
              → any (text_eq s) result
                ≡ any (text_eq s) (cleaned (λ c. c) (codes " Users:Read " ∷ []))))
normalize_scopes_correct_example = normalize_scopes_correct (λ c. c) (codes " Users:Read " ∷ [])
