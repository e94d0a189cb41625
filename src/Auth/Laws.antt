-- ===== src/Auth/Laws.antt =====
-- The two kinds of callers never mix.
use lightweight_saas_backend.Prelude.{
  Bool-cases, Option, false, inl, inr, none, refl, some, true, ◌≡◌, ◌⊎◌,
}
use lightweight_saas_backend.Auth.{
  EventKind, Identity, Lookup, Outcome, Principal, ProjectPrincipal, Provider, Refusal,
  authenticate_operator, authenticate_principal, authenticate_project, dispatch, extract_bearer,
  found, is_project_token, new_project_principal, operator_outcome, operator_type, project_outcome,
  project_type, rejected, unauthorized, undecided, verification_unavailable,
}
use lightweight_saas_backend.Text.{Text}

-- What a request that goes on carries: a well-formed principal, and an identity exactly where the
-- principal is an operator. A refused request carries neither.
abbrev pub IsSeparated : Outcome → Type 0
IsSeparated o =
    ((o.refusal ≡ none)
      × ((id : Identity) × (o.identity ≡ some id)
          × (o.principal
              ≡ some (record { kind = operator_type; operator = some id; project = none }))))
    ⊎ ((o.refusal ≡ none)
        × (o.identity ≡ none)
        × ((q : ProjectPrincipal) × (o.principal
              ≡ some (record { kind = project_type; operator = none; project = some q }))))
    ⊎ (((r : Refusal) × (o.refusal ≡ some r)) × (o.identity ≡ none) × (o.principal ≡ none))

operator_outcome-IsSeparated : (o : Option Identity) → IsSeparated (operator_outcome o)
unfolding operator_outcome
operator_outcome-IsSeparated none = inr (inr ((unauthorized, refl), refl, refl))
operator_outcome-IsSeparated (some id) = inl (refl, (id, refl, refl))

project_outcome-IsSeparated : (l : Lookup) → IsSeparated (project_outcome l)
unfolding project_outcome
project_outcome-IsSeparated undecided = inr (inr ((verification_unavailable, refl), refl, refl))
project_outcome-IsSeparated rejected = inr (inr ((unauthorized, refl), refl, refl))
project_outcome-IsSeparated (found p) = inr (inl (refl, refl, (p, refl)))

authenticate_operator-IsSeparated :
    (provider : Option Provider) (raw : Text) → IsSeparated (authenticate_operator provider raw)
unfolding authenticate_operator
authenticate_operator-IsSeparated none raw = inr (inr ((unauthorized, refl), refl, refl))
authenticate_operator-IsSeparated (some validate) raw = operator_outcome-IsSeparated (validate raw)

authenticate_project-IsSeparated :
    (projects : Option (Text → Lookup)) (raw : Text)
    → IsSeparated (authenticate_project projects raw)
unfolding authenticate_project
authenticate_project-IsSeparated none raw = inr (inr ((unauthorized, refl), refl, refl))
authenticate_project-IsSeparated (some lookup) raw = project_outcome-IsSeparated (lookup raw)

module _ (provider : Option Provider) (projects : Option (Text → Lookup)) where
  dispatch-IsSeparated : (t : Text ⊎ EventKind) → IsSeparated (dispatch provider projects t)
  unfolding dispatch
  dispatch-IsSeparated (inr fault) = inr (inr ((unauthorized, refl), refl, refl))
  dispatch-IsSeparated (inl raw) = elim (Bool-cases (is_project_token raw)) [
    | inl e ↦ rw e (authenticate_project-IsSeparated projects raw)
    | inr e ↦ rw e (authenticate_operator-IsSeparated provider raw)
  ]

  -- Whatever the header and the answers of the two authenticators: a request that goes on carries
  -- one principal, and an identity exactly where it is an operator; a project never leaves an
  -- identity, and a refused request leaves neither.
  pub authenticate_principal-IsSeparated :
      (header : Text) → IsSeparated (authenticate_principal provider projects header)
  unfolding authenticate_principal
  authenticate_principal-IsSeparated header = dispatch-IsSeparated (extract_bearer header)

-- A token with the prefix of project credentials is never handed to the OIDC provider, and one
-- without it is never handed to the project authenticator: the outcome does not depend on them.
pub authenticate_principal_discriminates :
    (provider other_provider : Option Provider) (projects other_projects : Option (Text → Lookup))
    (header raw : Text)
    → extract_bearer header ≡ inl raw
    → (is_project_token raw ≡ true
        → authenticate_principal provider projects header
          ≡ authenticate_principal other_provider projects header)
      × (is_project_token raw ≡ false
          → authenticate_principal provider projects header
            ≡ authenticate_principal provider other_projects header)
unfolding authenticate_principal dispatch
authenticate_principal_discriminates provider other_provider projects other_projects header raw e =
    ((λ t. rw e (rw t)), λ t. rw e (rw t))

-- The principal that the answer of a project authenticator leaves.
abbrev pub principal_of_lookup : Lookup → Option Principal
principal_of_lookup undecided = none
principal_of_lookup rejected = none
principal_of_lookup (found p) = some (new_project_principal p)

principal-project_outcome : (l : Lookup) → (project_outcome l).principal ≡ principal_of_lookup l
unfolding project_outcome
principal-project_outcome undecided = refl
principal-project_outcome rejected = refl
principal-project_outcome (found p) = refl

pub principal-authenticate_principal :
    (provider : Option Provider) (lookup : Text → Lookup) (header raw : Text)
    → extract_bearer header ≡ inl raw
    → is_project_token raw ≡ true
    → (authenticate_principal provider (some lookup) header).principal
      ≡ principal_of_lookup (lookup raw)
unfolding authenticate_principal dispatch authenticate_project
principal-authenticate_principal provider lookup header raw e t =
    rw e (rw t (principal-project_outcome (lookup raw)))
