-- ===== src/Workspace/Slug/Tests.antt =====
-- Concrete names and slugs.
use lightweight_saas_backend.Prelude.{All, [], none, refl, some, true, ◌↔◌, ◌≡◌, ◌≢◌, ◌≤◌, ◌⊎◌}
use lightweight_saas_backend.Text.{codes, len, text_eq, to_lower, trim_space, trim_suffix}
use lightweight_saas_backend.Workspace.Slug.{
  is_reserved, max_slug_length, reserved_slugs, slug_from_name, slug_invalid, slug_pattern,
  slug_reserved, validate_slug,
}
use lightweight_saas_backend.Workspace.Slug.Derive.{slug_from_name-IsSlug}
use lightweight_saas_backend.Workspace.Slug.Grammar.{IsSlug, slug_pattern_iff, validate_slug_iff}

derived : slug_from_name (λ c. c) (codes "  Billing -- Worker 7! ") ≡ codes "billing-worker-7"
unfolding slug_from_name trim_space to_lower trim_suffix len
derived = refl

reserved : validate_slug (codes "admin") ≡ some slug_reserved
unfolding validate_slug slug_pattern is_reserved text_eq len
reserved = refl

doubled : validate_slug (codes "a--b") ≡ some slug_invalid
unfolding validate_slug slug_pattern is_reserved text_eq len
doubled = refl

validate_slug_iff_example : (validate_slug (codes "acme-2") ≡ none) ↔ (
    IsSlug (codes "acme-2")
    × (len (codes "acme-2") ≤ max_slug_length)
    × All (λ r. codes "acme-2" ≢ r) reserved_slugs)
validate_slug_iff_example = validate_slug_iff (codes "acme-2")

slug_from_name-IsSlug_example :
    (slug_from_name (λ c. c) (codes "Acme (EU)") ≡ [])
    ⊎ (IsSlug (slug_from_name (λ c. c) (codes "Acme (EU)"))
        × (len (slug_from_name (λ c. c) (codes "Acme (EU)")) ≤ max_slug_length))
slug_from_name-IsSlug_example = slug_from_name-IsSlug (λ c. c) (codes "Acme (EU)")

slug_pattern_iff_example : (slug_pattern (codes "acme-2") ≡ true) ↔ IsSlug (codes "acme-2")
slug_pattern_iff_example = slug_pattern_iff (codes "acme-2")
