-- ===== src/Connection/View.antt =====
-- The life cycle of a connection, as internal/connection/model.go describes it.
use lightweight_saas_backend.Prelude.{List, Option, false, find, none, some, ℕ, ◌≡◌, ◌≤◌}
use lightweight_saas_backend.Connection.Model.{
  Row, Status, active, draft, is_active, is_retired, retired,
}
use lightweight_saas_backend.Connection.Repository.{row_has_id}
use lightweight_saas_backend.Text.{Text}

-- What a caller can tell of an id: nothing stands under it, or a connection of a workspace, with its
-- status.
abbrev pub View : Type 0
View = Option (Text × Status)

abbrev pub seen : Row → View
seen r = some (r.conn.workspace_id, r.conn.status)

abbrev pub seen_option : Option Row → View
seen_option none = none
seen_option (some r) = seen r

abbrev pub view : Text → List Row → View
view id rows = seen_option (find (row_has_id id) rows)

-- The moves of the life cycle: a connection begins as a draft, enters service from there only, ends
-- from any state but retired, and is dropped only while it is out of service. Retired is final, and
-- the workspace never changes.
pub data Moves : View → View → Type 0 where
  stays : (v : View) → Moves v v
  drafted : (w : Text) → Moves none (some (w, draft))
  entered : (w : Text) → Moves (some (w, draft)) (some (w, active))
  left : (w : Text) (st : Status) → is_retired st ≡ false → Moves (some (w, st)) (some (w, retired))
  dropped : (w : Text) (st : Status) → is_active st ≡ false → Moves (some (w, st)) none

-- The stages of the life cycle, in their order.
abbrev pub stage : Status → ℕ
stage draft = 0
stage active = 1
stage retired = 2

-- Two views with time between them in which the id was never vacant: the same workspace, and no
-- earlier stage. So a retired connection is still retired.
abbrev pub Keeps : View → View → Type 0
Keeps none later = Unit
Keeps (some (w, st)) later = (st' : Status) × (later ≡ some (w, st')) × (stage st ≤ stage st')
