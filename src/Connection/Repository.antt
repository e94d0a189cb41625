-- ===== src/Connection/Repository.antt =====
-- internal/connection/repository.go: the statements on the table of connections.
use lightweight_saas_backend.Prelude.{
  Bool, List, Option, [], any, false, find, if◌then◌else◌, map, none, not, select, some, true, ℕ,
  ◌&&◌, ◌++◌, ◌||◌, ◌∷◌,
}
use lightweight_saas_backend.Connection.Model.{
  AccessMode, Connection, Error, Row, Status, active, active_cannot_delete, already_active, draft,
  driver, health_unknown, healthy, is_active, is_draft, is_retired, mode_unknown, not_draft,
  not_verified, retired, retired_error, unhealthy, workspace_has_active,
}
use lightweight_saas_backend.Secrets.{Sealed}
use lightweight_saas_backend.Store.{
  Db, M, Result, err, lift, ok, query, savepoint, statement, ◌>>=◌,
}
use lightweight_saas_backend.Text.{Text, codes, text_eq}

abbrev pub set_connections : Db → List Row → Db
set_connections db rows = record db { connections = rows }

pub data StatusFilter : Type 0 where
  filter_all filter_draft filter_active filter_retired : StatusFilter

unfoldable pub parse_status_filter : Text → Option StatusFilter
parse_status_filter raw =
    if text_eq raw []
    then some filter_all
    else if text_eq raw (codes "all")
    then some filter_all
    else if text_eq raw (codes "draft")
    then some filter_draft
    else if text_eq raw (codes "active")
    then some filter_active
    else if text_eq raw (codes "retired")
    then some filter_retired
    else none

abbrev passes : StatusFilter → Status → Bool
passes filter_all s = true
passes filter_draft s = is_draft s
passes filter_active s = is_active s
passes filter_retired s = is_retired s

abbrev pub row_has_id : Text → Row → Bool
row_has_id id r = text_eq r.conn.id id

abbrev pub active_in : Text → Row → Bool
active_in workspace_id r = is_active r.conn.status && text_eq r.conn.workspace_id workspace_id

-- The unique index on the workspace of the active rows: whether two rows stand in its way.
unfoldable pub two_active : List Row → Bool
two_active [] = false
two_active (r ∷ rows) =
    (is_active r.conn.status && any (active_in r.conn.workspace_id) rows) || two_active rows

-- An UPDATE: the rows that meet the condition are changed.
abbrev pub changing : (Row → Bool) → (Row → Row) → Row → Row
changing guard f r = if guard r then f r else r

abbrev pub update_rows : (Row → Bool) → (Row → Row) → List Row → List Row
update_rows guard f rows = map (changing guard f) rows

-- `Create`: the primary key and the unique index; the checks of the table are not modelled, since
-- every row that is written meets them.
unfoldable pub insert_connection : Row → M Error (Unit {0})
insert_connection r = statement driver (λ db.
    if any (row_has_id r.conn.id) db.connections || two_active (db.connections ++ r ∷ [])
    then err driver
    else ok (tt, set_connections db (db.connections ++ r ∷ [])))

abbrev pub conn_of : Option Row → Option Connection
conn_of none = none
conn_of (some r) = some r.conn

abbrev pub sealed_of : Option Row → Option Sealed
sealed_of none = none
sealed_of (some r) = some r.sealed

-- `loadRow` and `GetByID`
unfoldable pub load_row : Text → M Error (Option Connection)
load_row id = query driver (λ db. conn_of (find (row_has_id id) db.connections))

-- `List` without its order.
unfoldable pub list_connections : Text → StatusFilter → M Error (List Connection)
list_connections workspace_id filter = query driver (λ db.
    map (λ r. r.conn)
      (select (λ r. text_eq r.conn.workspace_id workspace_id && passes filter r.conn.status)
        db.connections))

-- `GetActiveByWorkspace`; the index makes the order of no matter.
unfoldable pub get_active_by_workspace : Text → M Error (Option Connection)
get_active_by_workspace workspace_id =
    query driver (λ db. conn_of (find (active_in workspace_id) db.connections))

unfoldable pub open_secret : Text → M Error (Option Sealed)
open_secret id = query driver (λ db. sealed_of (find (row_has_id id) db.connections))

pub record ConfigPatch : Type 0 where
  pub name : Option Text
  pub base_url : Option Text
  pub realm : Option Text
  pub client_id : Option Text

abbrev pub or_else {ℓ} : {A : Type ℓ} → Option A → A → A
or_else none a = a
or_else (some b) a = b

abbrev pub is_given {ℓ} : {A : Type ℓ} → Option A → Bool
is_given none = false
is_given (some _) = true

-- Whether the patch touches what a verification was made against.
unfoldable pub touches_target : ConfigPatch → Option Sealed → Bool
touches_target patch sealed =
    is_given patch.base_url || is_given patch.realm || is_given patch.client_id || is_given sealed

unfoldable pub unverified : Connection → Connection
unverified c = record c {
  health = health_unknown;
  health_message = [];
  access_mode = mode_unknown;
  last_verified_at = none;
}

unfoldable pub patched : ConfigPatch → Option Sealed → ℕ → Row → Row
unfolding unverified
patched patch sealed now r =
    let c = record r.conn {
      name = or_else patch.name r.conn.name;
      base_url = or_else patch.base_url r.conn.base_url;
      realm = or_else patch.realm r.conn.realm;
      client_id = or_else patch.client_id r.conn.client_id;
      updated_at = now;
    } in
    record {
      conn = if touches_target patch sealed then unverified c else c;
      sealed = or_else sealed r.sealed;
    }

abbrev pub guarded_by : Text → (Status → Bool) → Row → Bool
guarded_by id permitted r = text_eq r.conn.id id && permitted r.conn.status

-- An UPDATE of a guarded row that no index can refuse; whether a row was affected.
unfoldable pub update_guarded : (Row → Bool) → (Row → Row) → M Error Bool
update_guarded guard f =
    statement driver
      (λ db. ok (any guard db.connections, set_connections db (update_rows guard f db.connections)))

unfoldable pub after_update_config : Bool → Option Connection → Result Error (Option Connection)
after_update_config affected none = ok none
after_update_config affected (some c) =
    if affected
    then ok (some c)
    else if is_retired c.status
    then err retired_error
    else err not_draft

unfoldable pub update_config : Text → ConfigPatch → Option Sealed → ℕ → M Error (Option Connection)
unfolding after_update_config
update_config id patch sealed now = savepoint driver (do
  affected ← update_guarded (guarded_by id is_draft) (patched patch sealed now)
  current ← load_row id
  lift (after_update_config affected current))

-- What the repository reads of a report.
pub record VerifyReport : Type 0 where
  pub ok_verdict : Bool
  pub mode : AccessMode
  pub summary : Text
  pub checked_at : ℕ

unfoldable pub judged : VerifyReport → Row → Row
judged report r = record r {
  conn = record r.conn {
    health = if report.ok_verdict then healthy else unhealthy;
    health_message = report.summary;
    access_mode = report.mode;
    last_verified_at = some report.checked_at;
    updated_at = report.checked_at;
  };
}

unfoldable pub save_verification : Text → VerifyReport → M Error (Option Connection)
save_verification id report =
    savepoint driver (do _ ← update_guarded (row_has_id id) (judged report); load_row id)

unfoldable pub ended : ℕ → Row → Row
ended now r = record r {
  conn = record r.conn { status = retired; retired_at = some now; updated_at = now };
}

unfoldable pub promoted : ℕ → Row → Row
promoted now r = record r {
  conn = record r.conn { status = active; activated_at = some now; updated_at = now };
}

-- workspace_id = ? AND status = 'active' AND id <> ?
abbrev pub incumbent : Text → Text → Row → Bool
incumbent id workspace_id r = active_in workspace_id r && not (text_eq r.conn.id id)

-- The UPDATE that promotes, which the unique index may refuse.
unfoldable pub promote_row : Text → ℕ → M Error Bool
promote_row id now = statement driver (λ db.
    let rows = update_rows (guarded_by id is_draft) (promoted now) db.connections in
    if two_active rows
    then err workspace_has_active
    else ok (any (guarded_by id is_draft) db.connections, set_connections db rows))

not_promoted : Status → Error
not_promoted draft = not_verified
not_promoted active = already_active
not_promoted retired = retired_error

unfoldable pub after_promote : Bool → Option Connection → Result Error (Option Connection)
unfolding not_promoted
after_promote affected none = ok none
after_promote affected (some c) = if affected then ok (some c) else err (not_promoted c.status)

unfoldable pub activate : Text → Text → ℕ → M Error (Option Connection)
unfolding after_promote
activate id workspace_id now = savepoint driver (do
  _ ← update_guarded (incumbent id workspace_id) (ended now)
  affected ← promote_row id now
  current ← load_row id
  lift (after_promote affected current))

abbrev pub not_retired : Status → Bool
not_retired s = not (is_retired s)

unfoldable pub after_retire : Bool → Option Connection → Result Error (Option Connection)
after_retire affected none = ok none
after_retire affected (some c) = if affected then ok (some c) else err retired_error

unfoldable pub retire : Text → ℕ → M Error (Option Connection)
unfolding after_retire
retire id now = savepoint driver (do
  affected ← update_guarded (guarded_by id not_retired) (ended now)
  current ← load_row id
  lift (after_retire affected current))

abbrev pub not_active : Status → Bool
not_active s = not (is_active s)

-- `Delete`
unfoldable pub delete : Text → M Error (Unit {0})
delete id = statement driver (λ db.
    if any (guarded_by id not_active) db.connections
    then ok (tt, set_connections db (select (λ r. not (guarded_by id not_active r)) db.connections))
    else err active_cannot_delete)
