-- ===== src/Workspace/Model.antt =====
-- internal/workspace/model.go: the domain type.
use lightweight_saas_backend.Prelude.{Bool, Option, false, not, true, ℕ}
use lightweight_saas_backend.PublicId.{format, workspace_prefix}
use lightweight_saas_backend.Text.{Text}

pub data Status : Type 0 where
  active archived : Status

-- Times are nanoseconds.
pub record Workspace : Type 0 where
  pub id : Text
  pub slug : Text
  pub name : Text
  pub status : Status
  pub created_at : ℕ
  pub updated_at : ℕ
  pub archived_at : Option ℕ

unfoldable pub public_id : Workspace → Text
public_id w = format workspace_prefix w.id

abbrev pub is_active_status : Status → Bool
is_active_status active = true
is_active_status archived = false

-- `IsArchived`
abbrev pub is_archived : Workspace → Bool
is_archived w = not (is_active_status w.status)
