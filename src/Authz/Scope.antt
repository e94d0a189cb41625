-- ===== src/Authz/Scope.antt =====
-- internal/authz/scope.go: the capabilities of project credentials.
pub mod Laws
use lightweight_saas_backend.Prelude.{Bool, List, [], any, if◌then◌else◌, not, ℕ, ◌++◌, ◌∷◌}
use lightweight_saas_backend.Text.{Text, codes, text_eq, to_lower, trim_space}

abbrev pub users_read : Text
users_read = codes "users:read"

abbrev pub users_write : Text
users_write = codes "users:write"

abbrev pub roles_read : Text
roles_read = codes "roles:read"

abbrev pub roles_write : Text
roles_write = codes "roles:write"

abbrev pub sessions_read : Text
sessions_read = codes "sessions:read"

abbrev pub sessions_revoke : Text
sessions_revoke = codes "sessions:revoke"

abbrev pub invitations_read : Text
invitations_read = codes "invitations:read"

abbrev pub invitations_write : Text
invitations_write = codes "invitations:write"

abbrev pub audit_read : Text
audit_read = codes "audit:read"

-- `AllScopes`, in its order.
abbrev pub all_scopes : List Text
all_scopes =
    users_read ∷ users_write ∷ roles_read ∷ roles_write ∷ sessions_read ∷ sessions_revoke
    ∷ invitations_read ∷ invitations_write ∷ audit_read ∷ []

unfoldable pub is_known_scope : Text → Bool
is_known_scope s = any (λ known. text_eq known s) all_scopes

-- The three results: the scopes, or the offending value, which is empty for an empty entry.
pub data Normalized : Type 0 where
  scopes_ok : List Text → Normalized
  bad_scope : Text → Normalized

-- One round of the loop for the normalized entry `s`; `seen` is the map.
next_seen : Text → List Text → List Text
next_seen s seen = if any (text_eq s) seen then seen else s ∷ seen

next_out : Text → List Text → List Text → List Text
next_out s seen out = if any (text_eq s) seen then out else out ++ s ∷ []

normalize_from : (ℕ → ℕ) → List Text → List Text → List Text → Normalized
unfolding next_seen next_out
normalize_from table seen out [] = scopes_ok out
normalize_from table seen out (r ∷ raw) =
    let s = to_lower table (trim_space r) in
    let rest = normalize_from table (next_seen s seen) (next_out s seen out) raw in
    if text_eq s [] then bad_scope [] else if not (is_known_scope s) then bad_scope s else rest

-- `NormalizeScopes`; `table` is the lower case of the letters beyond ASCII.
unfoldable pub normalize_scopes : (ℕ → ℕ) → List Text → Normalized
unfolding normalize_from
normalize_scopes table raw = normalize_from table [] [] raw

unfoldable pub has_scope : List Text → Text → Bool
has_scope granted want = any (λ g. text_eq g want) granted
