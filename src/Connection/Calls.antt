-- ===== src/Connection/Calls.antt =====
-- internal/connection/service.go as a caller sees it: mutations one after another, each with its own
-- collaborators and with any of its statements failing.
use lightweight_saas_backend.Prelude.{Bool, List, [], ◌∷◌}
use lightweight_saas_backend.Audit.{Event}
use lightweight_saas_backend.Connection.Operations.{
  UpdateInput, activate_connection, delete_connection, retire_connection, update, verify,
}
use lightweight_saas_backend.Connection.Service.{CreateInput, Env, create}
use lightweight_saas_backend.Store.{Db, Session}
use lightweight_saas_backend.Text.{Text}

pub data Call : Type 0 where
  creating : Text → CreateInput → Event → Call
  updating : Text → Text → UpdateInput → Event → Call
  verifying activating retiring deleting : Text → Text → Event → Call

pub record Request : Type 0 where
  pub env : Env
  pub call : Call
  pub faults : List Bool

unfoldable pub perform : Env → Call → Session → Session
perform env (creating workspace_public input ev) s = (create env workspace_public input ev s).1
perform env (updating workspace_public connection_public input ev) s =
    (update env workspace_public connection_public input ev s).1
perform env (verifying workspace_public connection_public ev) s =
    (verify env workspace_public connection_public ev s).1
perform env (activating workspace_public connection_public ev) s =
    (activate_connection env workspace_public connection_public ev s).1
perform env (retiring workspace_public connection_public ev) s =
    (retire_connection env workspace_public connection_public ev s).1
perform env (deleting workspace_public connection_public ev) s =
    (delete_connection env workspace_public connection_public ev s).1

abbrev pub serve : Request → Db → Db
serve q db = (perform q.env q.call (record { db = db; faults = q.faults })).db

abbrev pub serve_all : List Request → Db → Db
serve_all [] db = db
serve_all (q ∷ qs) db = serve_all qs (serve q db)
