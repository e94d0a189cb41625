-- ===== src/Authz/Registry/Laws.antt =====
-- What the table grants.
use lightweight_saas_backend.Prelude.{
  All, Bool, Bool-cases, List, Option, Option-cases, [], all, and-true, arith, false, inl, inr,
  none, not, refl, some, true, ◌++◌, ◌||◌, ◌↔◌, ◌∷◌, ◌≡◌,
}
use lightweight_saas_backend.Authz.Registry.{
  Requirement, lookup_key, registry, requirement_for, route_key, v1_workspace, validate_registry,
}
use lightweight_saas_backend.Authz.Scope.{is_known_scope}
use lightweight_saas_backend.Text.{Text, codes, cut, strip_prefix, text_eq}
use lightweight_saas_backend.Text.Laws.{Lacks, cut-append, strip_prefix_sound, text_eq_iff}

lookup_key_holds :
    (p : Text × Requirement → Bool) (m : List (Text × Requirement)) (k : Text) (r : Requirement)
    → all p m ≡ true
    → lookup_key k m ≡ some r
    → p (k, r) ≡ true
unfolding lookup_key
lookup_key_holds p [] k r h e = cc
lookup_key_holds p ((j, q) ∷ m) k r h e = elim (Bool-cases (text_eq j k)) [
  | inl same ↦
      let key : j ≡ k = (text_eq_iff j k).0 same in
      let value : q ≡ r = ground arith in rw (← key, ← value) ((and-true (p (j, q)) (all p m) h).0)
  | inr other ↦ lookup_key_holds p m k r (and-true (p (j, q)) (all p m) h).1 (ground arith)
]

-- What stands behind the prefix in the path of a key.
path_after : Text → Option (Text × Text) → Option Text
path_after prefix none = none
path_after prefix (some (method, path)) = strip_prefix prefix path

is_some {ℓ} : {A : Type ℓ} → Option A → Bool
is_some none = false
is_some (some _) = true

-- A route that is not for operators only names a workspace.
names_workspace : Text × Requirement → Bool
names_workspace (k, r) =
    r.is_operator_only || is_some (path_after (v1_workspace ++ codes "/") (cut b' ' k))

-- A route of this family is for operators only.
reserved_family : Text → Text × Requirement → Bool
reserved_family prefix (k, r) = r.is_operator_only || not (is_some (path_after prefix (cut b' ' k)))

-- A scope that the table asks for is in the vocabulary.
asks_known : Text × Requirement → Bool
asks_known (k, r) = r.is_operator_only || is_known_scope r.scope

checked :
    (all names_workspace registry ≡ true)
    × (all (reserved_family (v1_workspace ++ codes "/connections")) registry ≡ true)
    × (all (reserved_family (v1_workspace ++ codes "/projects")) registry ≡ true)
    × (all asks_known registry ≡ true)
unfolding names_workspace reserved_family asks_known registry path_after is_some strip_prefix cut
    is_known_scope text_eq
checked = (refl, refl, refl, refl)

path_of_key :
    (prefix method path : Text)
    → Lacks b' ' method
    → path_after prefix (cut b' ' (route_key method path)) ≡ strip_prefix prefix path
unfolding path_after
path_of_key prefix method path bare = rw (cut-append b' ' method path bare)

module _ (method path : Text) (r : Requirement) (bare : Lacks b' ' method)
    (entry : requirement_for method path ≡ some r)
    (open_to_projects : r.is_operator_only ≡ false) where
  fact :
      (p : Text × Requirement → Bool) → all p registry ≡ true → p (route_key method path, r) ≡ true
  unfolding requirement_for
  fact p h = lookup_key_holds p registry (route_key method path) r h entry

  under_workspace : (rest : Text) × (path ≡ (v1_workspace ++ codes "/") ++ rest)
  unfolding names_workspace is_some
  under_workspace =
      let h = fact names_workspace checked.0 in
      elim (Option-cases (strip_prefix (v1_workspace ++ codes "/") path)) [
        | inl e ↦ absurd (ground (arith, path_of_key (v1_workspace ++ codes "/") method path bare))
        | inr (rest, e) ↦ (rest, strip_prefix_sound (v1_workspace ++ codes "/") path rest e)
      ]

  outside :
      (prefix : Text)
      → all (reserved_family prefix) registry ≡ true
      → strip_prefix prefix path ≡ none
  unfolding reserved_family is_some
  outside prefix h =
      let k = fact (reserved_family prefix) h in ground (arith, path_of_key prefix method path bare)

  known : is_known_scope r.scope ≡ true
  unfolding asks_known
  known = let h = fact asks_known checked.3 in ground arith

-- A route that a project credential may reach at all lies under /v1/workspaces/:workspace_id/, is
-- neither a connection's nor a project's or credential's, and asks for a scope of the vocabulary.
pub requirement_for_scoped :
    (method path : Text) (r : Requirement)
    → Lacks b' ' method
    → requirement_for method path ≡ some r
    → r.is_operator_only ≡ false
    → ((rest : Text) × (path ≡ (v1_workspace ++ codes "/") ++ rest))
      × (strip_prefix (v1_workspace ++ codes "/connections") path ≡ none)
      × (strip_prefix (v1_workspace ++ codes "/projects") path ≡ none)
      × (is_known_scope r.scope ≡ true)
requirement_for_scoped method path r bare entry open_to_projects = (
  under_workspace method path r bare entry open_to_projects,
  outside method path r bare entry open_to_projects (v1_workspace ++ codes "/connections")
      checked.1,
  outside method path r bare entry open_to_projects (v1_workspace ++ codes "/projects") checked.2,
  known method path r bare entry open_to_projects,
)

validates :
    (mounted : List Text)
    → validate_registry mounted ≡ []
    → All (λ k. (r : Requirement) × (lookup_key k registry ≡ some r)) mounted
unfolding validate_registry
validates [] h = tt
validates (k ∷ mounted) h = elim (Option-cases (lookup_key k registry)) [
  | inl e ↦ ground arith
  | inr entry ↦ (entry, validates mounted (ground arith))
]

validated :
    (mounted : List Text)
    → All (λ k. (r : Requirement) × (lookup_key k registry ≡ some r)) mounted
    → validate_registry mounted ≡ []
unfolding validate_registry
validated [] h = refl
validated (k ∷ mounted) (entry, h) = rw (entry.1, validate_registry) (validated mounted h)

-- The boot check lets the process start exactly if every mounted route has a classification.
pub validate_registry_iff :
    (mounted : List Text)
    → (validate_registry mounted ≡ [])
      ↔ All (λ k. (r : Requirement) × (lookup_key k registry ≡ some r)) mounted
unfolding validate_registry
validate_registry_iff mounted = (validates mounted, validated mounted)
