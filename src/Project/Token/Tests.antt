-- ===== src/Project/Token/Tests.antt =====
-- A token of zeros.
use lightweight_saas_backend.Prelude.{[], some, ◌↔◌, ◌≡◌}
use lightweight_saas_backend.Project.Token.{parse_token}
use lightweight_saas_backend.Project.Token.Laws.{IsToken, parse_token_iff, spelled}
use lightweight_saas_backend.Text.{codes}

parse_token_iff_example :
    (parse_token (codes "lw_sk_x") ≡ some (record { lookup = codes "x"; secret = [] })) ↔ (
      (codes "lw_sk_x" ≡ spelled (record { lookup = codes "x"; secret = [] }))
      × IsToken (record { lookup = codes "x"; secret = [] }))
parse_token_iff_example =
    parse_token_iff (codes "lw_sk_x") (record { lookup = codes "x"; secret = [] })
