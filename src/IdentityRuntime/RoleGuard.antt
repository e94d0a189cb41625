-- ===== src/IdentityRuntime/RoleGuard.antt =====
-- internal/identityruntime/role_guard.go: a machine names no protected role in a grant or a revoke.
use lightweight_saas_backend.Prelude.{
  Bool, Bool-cases, List, Option, any, arith, false, if◌then◌else◌, inl, inr, none, not, refl, some,
  true, ℕ, ◌↔◌, ◌≡◌, ◌⊎◌,
}
use lightweight_saas_backend.Auth.{Principal, is_project}
use lightweight_saas_backend.Connection.Repository.{is_given}
use lightweight_saas_backend.IdentityService.{is_protected_role_name}
use lightweight_saas_backend.Text.{Text}

-- `guardPrivilegedRoles`: whether the request may proceed.
unfoldable pub guard_privileged_roles : (ℕ → ℕ) → Option Principal → List Text → Bool
guard_privileged_roles table none names = true
guard_privileged_roles table (some p) names =
    if not (is_given (is_project p)) then true else not (any (is_protected_role_name table) names)

-- A project credential passes the guard exactly if none of the names, trimmed and in lower case, is
-- protected; everybody else passes.
pub guard_privileged_roles_iff :
    (table : ℕ → ℕ) (p : Principal) (names : List Text)
    → (guard_privileged_roles table (some p) names ≡ true)
      ↔ ((is_given (is_project p) ≡ false) ⊎ (any (is_protected_role_name table) names ≡ false))
unfolding guard_privileged_roles
guard_privileged_roles_iff table p names = elim (Bool-cases (is_given (is_project p))) [
  | inl machine ↦ rw machine ((λ h. inr (ground arith)), go)
  | inr person ↦ rw person ((λ h. inl refl), (λ h. refl))
]
  where
    go :
        ((true ≡ false) ⊎ (any (is_protected_role_name table) names ≡ false))
        → not (any (is_protected_role_name table) names) ≡ true
    go (inl h) = absurd (ground arith)
    go (inr h) = ground arith
