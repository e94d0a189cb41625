-- ===== src/Workspace/Repository.antt =====
-- internal/workspace/repository.go: the statements on the table of workspaces.
use lightweight_saas_backend.Prelude.{
  Bool, List, Option, [], any, find, if◌then◌else◌, none, not, select, some, true, ℕ, ◌&&◌, ◌++◌,
  ◌||◌, ◌∷◌,
}
use lightweight_saas_backend.Store.{
  Db, M, Result, err, lift, ok, query, savepoint, statement, ◌>>=◌,
}
use lightweight_saas_backend.Text.{Text, codes, text_eq}
use lightweight_saas_backend.Workspace.Model.{Workspace, archived, is_active_status}

-- The errors of the package that services return, and those of the driver and of the audit writer,
-- which pass through as they are.
pub data Error : Type 0 where
  name_required invalid_request slug_invalid_error slug_reserved_error slug_taken : Error
  not_found invalid_id workspace_archived invalid_status_filter : Error
  id_unavailable driver not_recorded : Error

pub data StatusFilter : Type 0 where
  filter_active filter_archived filter_all : StatusFilter

unfoldable pub parse_status_filter : Text → Option StatusFilter
parse_status_filter raw =
    if text_eq raw []
    then some filter_active
    else if text_eq raw (codes "active")
    then some filter_active
    else if text_eq raw (codes "archived")
    then some filter_archived
    else if text_eq raw (codes "all")
    then some filter_all
    else none

abbrev pub set_workspaces : Db → List Workspace → Db
set_workspaces db ws = record db { workspaces = ws }

-- The primary key and the unique index on the slug.
unfoldable pub collides : Workspace → Workspace → Bool
collides w row = text_eq row.id w.id || text_eq row.slug w.slug

unfoldable pub insert_row : Workspace → Db → Result Error (Unit {0} × Db)
insert_row w db =
    if any (collides w) db.workspaces
    then err slug_taken
    else ok (tt, set_workspaces db (db.workspaces ++ w ∷ []))

-- `Create`; a violation of either constraint is gorm.ErrDuplicatedKey.
unfoldable pub create : Workspace → M Error (Unit {0})
unfolding insert_row
create w = statement driver (insert_row w)

abbrev pub has_id : Text → Workspace → Bool
has_id id w = text_eq w.id id

-- `loadRow`, and `GetByID`: `none` where nothing matches.
unfoldable pub get_by_id : Text → M Error (Option Workspace)
get_by_id id = query driver (λ db. find (has_id id) db.workspaces)

unfoldable pub passes_filter : StatusFilter → Workspace → Bool
passes_filter filter_active w = is_active_status w.status
passes_filter filter_archived w = not (is_active_status w.status)
passes_filter filter_all w = true

-- `List` without its order: that of name and id, which is the collation's.
unfoldable pub list_rows : StatusFilter → M Error (List Workspace)
unfolding passes_filter
list_rows filter = query driver (λ db. select (passes_filter filter) db.workspaces)

-- WHERE id = ? AND status = 'active'
abbrev pub guarded : Text → Workspace → Bool
guarded id w = text_eq w.id id && is_active_status w.status

-- UPDATE of the rows that a guard selects.
unfoldable pub update_where :
    (Workspace → Bool) → (Workspace → Workspace) → List Workspace → List Workspace
update_where p f [] = []
update_where p f (w ∷ ws) = (if p w then f w else w) ∷ update_where p f ws

-- The statement UPDATE, with whether a row was affected.
unfoldable pub update_rows : Text → (Workspace → Workspace) → M Error Bool
update_rows id f = statement driver (λ db.
    ok (
      any (guarded id) db.workspaces,
      set_workspaces db (update_where (guarded id) f db.workspaces),
    ))

abbrev pub renamed : Text → ℕ → Workspace → Workspace
renamed name now w = record w { name = name; updated_at = now }

abbrev pub put_away : ℕ → Workspace → Workspace
put_away now w = record w { status = archived; archived_at = some now; updated_at = now }

-- What the read-back of `UpdateName` tells.
unfoldable pub renamed_row : Bool → Option Workspace → Result Error (Option Workspace)
renamed_row affected none = ok none
renamed_row affected (some w) =
    if not affected && not (is_active_status w.status) then err workspace_archived else ok (some w)

unfoldable pub update_name : Text → Text → ℕ → M Error (Option Workspace)
unfolding renamed_row
update_name id name now = savepoint driver (do
  affected ← update_rows id (renamed name now)
  current ← get_by_id id
  lift (renamed_row affected current))

unfoldable pub archive : Text → ℕ → M Error (Option Workspace)
archive id now = savepoint driver (do affected ← update_rows id (put_away now); get_by_id id)
