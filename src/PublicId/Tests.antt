-- ===== src/PublicId/Tests.antt =====
-- Concrete identifiers.
use lightweight_saas_backend.Prelude.{arith, refl, ◌≡◌}
use lightweight_saas_backend.Examples.{zero_id}
use lightweight_saas_backend.PublicId.{
  format, normalize_uuid, parse, parsed, project_prefix, separator, workspace_prefix,
}
use lightweight_saas_backend.PublicId.Canonical.{IsBody, IsLowerUuid, parse-IsLowerUuid}
use lightweight_saas_backend.PublicId.Laws.{IsCanonical, parse-format, parse_bare}
use lightweight_saas_backend.Text.{Text, codes, cut, is_space, len, text_eq, to_lower, trim_space}
use lightweight_saas_backend.Text.Laws.{Lacks, NoSpace}

parse_prefixed :
    parse workspace_prefix (codes " ws_3F2504E0-4f89-41d3-9a0c-0305e82c3301 ")
    ≡ parsed (codes "3f2504e0-4f89-41d3-9a0c-0305e82c3301")
unfolding parse text_eq len trim_space to_lower cut
parse_prefixed = refl

zero-IsCanonical : IsCanonical zero_id
unfolding normalize_uuid len text_eq to_lower
zero-IsCanonical = refl

bare_prefix : Lacks separator workspace_prefix × NoSpace workspace_prefix
unfolding is_space
bare_prefix = ground arith

parse-format_example : parse workspace_prefix (format workspace_prefix zero_id) ≡ parsed zero_id
parse-format_example =
    parse-format workspace_prefix zero_id bare_prefix.0 bare_prefix.1 zero-IsCanonical

parse_bare_example : parse project_prefix zero_id ≡ parsed zero_id
parse_bare_example = parse_bare project_prefix zero_id zero-IsCanonical

parse-IsLowerUuid_example :
    ((body : Text) × IsBody workspace_prefix
        (trim_space (codes " ws_3F2504E0-4f89-41d3-9a0c-0305e82c3301 "))
        body
      × (to_lower (λ c. c) body ≡ codes "3f2504e0-4f89-41d3-9a0c-0305e82c3301"))
    × IsLowerUuid (codes "3f2504e0-4f89-41d3-9a0c-0305e82c3301")
    × (parse project_prefix (codes "3f2504e0-4f89-41d3-9a0c-0305e82c3301")
        ≡ parsed (codes "3f2504e0-4f89-41d3-9a0c-0305e82c3301"))
parse-IsLowerUuid_example =
    parse-IsLowerUuid workspace_prefix project_prefix
      (codes " ws_3F2504E0-4f89-41d3-9a0c-0305e82c3301 ")
      (codes "3f2504e0-4f89-41d3-9a0c-0305e82c3301") parse_prefixed
