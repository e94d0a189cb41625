-- ===== src/Project/Model.antt =====
-- internal/project/model.go: projects and their machine credentials.
use lightweight_saas_backend.Prelude.{
  Bool, List, Option, false, leb, ltb, none, not, some, true, ℕ, ◌&&◌, ◌+◌,
}
use lightweight_saas_backend.PublicId.{credential_prefix, format, project_prefix, workspace_prefix}
use lightweight_saas_backend.Text.{Text}
use lightweight_saas_backend.Workspace.Model.{Status, is_active_status}

pub record Project : Type 0 where
  pub id : Text
  pub workspace_id : Text
  pub name : Text
  pub status : Status
  pub created_at : ℕ
  pub updated_at : ℕ
  pub archived_at : Option ℕ

pub record Credential : Type 0 where
  pub id : Text
  pub project_id : Text
  pub label : Text
  pub key_prefix : Text
  pub key_hash : List ℕ
  pub key_hash_alg : Text
  pub scopes : List Text
  pub expires_at : Option ℕ
  pub revoked_at : Option ℕ
  pub created_by : Text
  pub revoked_by : Option Text
  pub created_at : ℕ
  pub last_used_at : Option ℕ

abbrev pub max_active_credentials : ℕ
max_active_credentials = 10

abbrev pub max_name_length : ℕ
max_name_length = 120

abbrev pub max_label_length : ℕ
max_label_length = 120

-- time.Minute
abbrev pub last_used_throttle : ℕ
last_used_throttle = 60000000000

unfoldable pub project_public_id : Project → Text
project_public_id p = format project_prefix p.id

unfoldable pub workspace_public_id : Project → Text
workspace_public_id p = format workspace_prefix p.workspace_id

unfoldable pub credential_public_id : Credential → Text
credential_public_id c = format credential_prefix c.id

abbrev pub is_frozen : Project → Bool
is_frozen p = not (is_active_status p.status)

abbrev pub is_set : Option ℕ → Bool
is_set none = false
is_set (some _) = true

unfoldable pub is_revoked : Credential → Bool
is_revoked c = is_set c.revoked_at

-- `ExpiresAt != nil && !now.Before(*ExpiresAt)`
abbrev passed : ℕ → Option ℕ → Bool
passed now none = false
passed now (some t) = not (ltb now t)

unfoldable pub is_expired : ℕ → Credential → Bool
is_expired now c = passed now c.expires_at

unfoldable pub is_usable : ℕ → Credential → Bool
is_usable now c = not (is_revoked c) && not (is_expired now c)

-- `now.Sub(*LastUsedAt) >= lastUsedThrottle`; a later time gives a negative duration.
abbrev stale : ℕ → Option ℕ → Bool
stale now none = true
stale now (some t) = leb (t + last_used_throttle) now

unfoldable pub needs_last_used_touch : ℕ → Credential → Bool
needs_last_used_touch now c = stale now c.last_used_at
