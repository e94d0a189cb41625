-- ===== src/Auth/Tests.antt =====
-- Concrete headers, and a concrete cache.
use lightweight_saas_backend.Prelude.{
  [], arith, false, inl, none, refl, some, true, ◌+◌, ◌<◌, ◌∷◌, ◌≡◌, ◌≤◌,
}
use lightweight_saas_backend.Auth.{authenticate_principal, extract_bearer, found, is_project_token}
use lightweight_saas_backend.Auth.AdminCheck.{CachedAdminChecker, is_admin, is_admin-store, store}
use lightweight_saas_backend.Auth.Laws.{
  IsSeparated, authenticate_principal-IsSeparated, authenticate_principal_discriminates,
}
use lightweight_saas_backend.Examples.{caller, operator}
use lightweight_saas_backend.Text.{codes, strip_prefix, text_eq, trim_space}

authenticate_principal-IsSeparated_example : IsSeparated (
    authenticate_principal
      (some (λ raw. some operator))
      (some (λ raw. found caller))
      (codes "Bearer lw_sk_x"))
authenticate_principal-IsSeparated_example =
    authenticate_principal-IsSeparated (some (λ raw. some operator)) (some (λ raw. found caller))
      (codes "Bearer lw_sk_x")

extracted : extract_bearer (codes "Bearer lw_sk_x") ≡ inl (codes "lw_sk_x")
unfolding extract_bearer text_eq strip_prefix trim_space
extracted = refl

authenticate_principal_discriminates_example :
    (is_project_token (codes "lw_sk_x") ≡ true
      → authenticate_principal none (some (λ raw. found caller)) (codes "Bearer lw_sk_x")
        ≡ authenticate_principal
            (some (λ raw. some operator))
            (some (λ raw. found caller))
            (codes "Bearer lw_sk_x"))
    × (is_project_token (codes "lw_sk_x") ≡ false
        → authenticate_principal none (some (λ raw. found caller)) (codes "Bearer lw_sk_x")
          ≡ authenticate_principal none none (codes "Bearer lw_sk_x"))
authenticate_principal_discriminates_example =
    authenticate_principal_discriminates none (some (λ raw. some operator))
      (some (λ raw. found caller)) none (codes "Bearer lw_sk_x") (codes "lw_sk_x") extracted

abbrev cache : CachedAdminChecker
cache = record {
  ttl = 30;
  entries = (codes "bob", record { is_admin = true; expires_at = 9 }) ∷ [];
}

is_admin-store_example :
    (40 < 20 + 30
      → ((is_admin (store cache (codes "bob") 20 (some false)) (codes "bob") 40 41 none).1
          ≡ some false)
        × ((is_admin (store cache (codes "bob") 20 (some false)) (codes "bob") 40 41 none).2
            ≡ false))
    × (20 + 30 ≤ 40
        → ((is_admin (store cache (codes "bob") 20 (some false)) (codes "bob") 40 41 none).1 ≡ none)
          × ((is_admin (store cache (codes "bob") 20 (some false)) (codes "bob") 40 41 none).2
              ≡ true))
is_admin-store_example =
    is_admin-store cache (codes "bob") 20 40 41 false none (λ e. absurd (ground arith))
