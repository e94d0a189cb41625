-- ===== src/Project/Authenticator.antt =====
-- internal/project/authenticator.go: from a presented token to a project principal.
pub mod Laws
use lightweight_saas_backend.Prelude.{Bool, Option, if◌then◌else◌, none, not, some, ℕ, ◌&&◌}
use lightweight_saas_backend.Auth.{Lookup, ProjectPrincipal, found, rejected, undecided}
use lightweight_saas_backend.Project.Model.{
  Credential, Project, credential_public_id, is_frozen, is_usable, needs_last_used_touch,
  project_public_id, workspace_public_id,
}
use lightweight_saas_backend.Project.Repository.{Error, find_by_key_prefix, touch_last_used}
use lightweight_saas_backend.Project.Token.{Hash, ParsedToken, parse_token, secret_matches}
use lightweight_saas_backend.Store.{M, Result, err, ok, pure, ◌>>=◌, ◌>>◌}
use lightweight_saas_backend.Text.{Text}

unfoldable pub principal_of : Credential → Project → ProjectPrincipal
principal_of c p = record {
  project_id = project_public_id p;
  project_name = p.name;
  credential_id = credential_public_id c;
  workspace_id = workspace_public_id p;
  scopes = c.scopes;
}

-- What a method does about an error that it logs and drops.
unfoldable pub dropping : M Error (Unit {0}) → M Error (Unit {0})
dropping m s = (ok tt, (m s).1)

unfoldable pub touch : ℕ → Credential → M Error (Unit {0})
unfolding dropping
touch now c = if needs_last_used_touch now c then dropping (touch_last_used c.id now) else pure tt

-- The decision on a row that the lookup found.
unfoldable pub accepts : Hash → ℕ → Text → Credential × Project → Bool
accepts hash now secret (c, p) =
    secret_matches hash secret c.key_hash && is_usable now c && not (is_frozen p)

unfoldable pub decide :
    Hash → ℕ → Text → Option (Credential × Project) → M Error (Option ProjectPrincipal)
unfolding accepts touch
decide hash now secret none = pure none
decide hash now secret (some (c, p)) =
    if accepts hash now secret (c, p)
    then (do touch now c; pure (some (principal_of c p)))
    else pure none

unfoldable pub with_parsed : Hash → ℕ → Option ParsedToken → M Error (Option ProjectPrincipal)
unfolding decide
with_parsed hash now none = pure none
with_parsed hash now (some parsed_token) = do
  row ← find_by_key_prefix parsed_token.lookup
  decide hash now parsed_token.secret row

-- `AuthenticateCredential`
unfoldable pub authenticate_credential : Hash → ℕ → Text → M Error (Option ProjectPrincipal)
unfolding with_parsed
authenticate_credential hash now token = with_parsed hash now (parse_token token)

-- What the middleware gets: an error leaves the caller undecided.
unfoldable pub as_lookup : Result Error (Option ProjectPrincipal) → Lookup
as_lookup (err e) = undecided
as_lookup (ok none) = rejected
as_lookup (ok (some p)) = found p
