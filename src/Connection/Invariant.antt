-- ===== src/Connection/Invariant.antt =====
-- Every mutation keeps the constraints of the table of connections.
use lightweight_saas_backend.Prelude.{
  All-append, List, [], any, false, not, refl, ℕ, ◌++◌, ◌∷◌, ◌≡◌,
}
use lightweight_saas_backend.Connection.Calls.{Request, serve, serve_all}
use lightweight_saas_backend.Connection.Changes.{
  activated-IsTable, ended-IsTable, judged-IsTable, patched-IsTable,
}
use lightweight_saas_backend.Connection.Model.{Row, is_draft}
use lightweight_saas_backend.Connection.Repository.{
  guarded_by, not_active, not_retired, row_has_id, two_active,
}
use lightweight_saas_backend.Connection.Service.{Config, fresh_connection}
use lightweight_saas_backend.Connection.Step.{
  Step, activated_as, created_as, deleted_as, edited_as, judged_as, perform-Step, retired_as,
  unchanged,
}
use lightweight_saas_backend.Connection.Table.{IsRow, IsTable, append-DistinctIds, select-IsTable}
use lightweight_saas_backend.Secrets.{Sealed}
use lightweight_saas_backend.Store.{Db}
use lightweight_saas_backend.Text.{Text}

fresh_connection-IsRow :
    (id workspace_id : Text) (config : Config) (now : ℕ) (sealed : Sealed)
    → IsRow (record { conn = fresh_connection id workspace_id config now; sealed = sealed })
unfolding fresh_connection
fresh_connection-IsRow id workspace_id config now sealed = ((refl, refl), refl)

created-IsTable :
    (rows : List Row) (id workspace_id : Text) (config : Config) (now : ℕ) (sealed : Sealed)
    → IsTable rows
    → any (row_has_id id) rows ≡ false
    → two_active (
        rows
        ++ (record { conn = fresh_connection id workspace_id config now; sealed = sealed }) ∷ [])
      ≡ false
    → IsTable (
        rows
        ++ (record { conn = fresh_connection id workspace_id config now; sealed = sealed }) ∷ [])
unfolding fresh_connection
created-IsTable rows id workspace_id config now sealed table unseen free =
    let row : Row = record {
      conn = fresh_connection id workspace_id config now;
      sealed = sealed;
    } in
    record {
      distinct = append-DistinctIds rows row table.distinct unseen;
      one_active = free;
      well_formed =
          All-append IsRow rows (row ∷ []) table.well_formed
            (fresh_connection-IsRow id workspace_id config now sealed, tt);
    }

pub Step-IsTable : {rows after : List Row} → Step rows after → IsTable rows → IsTable after
Step-IsTable (unchanged rows) table = table
Step-IsTable (created_as id workspace_id config now sealed rows unseen free) table =
    created-IsTable rows id workspace_id config now sealed table unseen free
Step-IsTable (edited_as id patch sealed now rows) table =
    patched-IsTable (guarded_by id is_draft) patch sealed now rows table
Step-IsTable (judged_as id report rows) table = judged-IsTable (row_has_id id) report rows table
Step-IsTable (activated_as id workspace_id now rows free) table =
    activated-IsTable id workspace_id now rows table free
Step-IsTable (retired_as id now rows) table =
    ended-IsTable (guarded_by id not_retired) now rows table
Step-IsTable (deleted_as id rows) table =
    select-IsTable (λ r. not (guarded_by id not_active r)) rows table

-- Whatever requests are served one after another, with whatever collaborators and failing
-- statements: where the table of connections meets its constraints before (distinct ids, one active
-- connection a workspace at most, the dates and the verdict of each row as its status and its health
-- ask), it meets them after.
pub serve_all-IsTable :
    (qs : List Request) (db : Db) → IsTable db.connections → IsTable (serve_all qs db).connections
serve_all-IsTable [] db table = table
serve_all-IsTable (q ∷ qs) db table =
    serve_all-IsTable qs (serve q db)
      (Step-IsTable (perform-Step q.env q.call (record { db = db; faults = q.faults })) table)
