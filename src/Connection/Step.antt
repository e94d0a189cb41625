-- ===== src/Connection/Step.antt =====
-- The steps of the table of connections, and that each request takes one.
use mathlib.Core.Path.{subst}
use lightweight_saas_backend.Prelude.{
  List, Option, [], any, ap, false, not, refl, select, sym, ℕ, ◌++◌, ◌∙◌, ◌∷◌, ◌≡◌,
}
use lightweight_saas_backend.Audit.{Event}
use lightweight_saas_backend.Connection.Atomic.{
  activate_connection-IsAtomic, create-IsAtomic, delete_connection-IsAtomic,
  retire_connection-IsAtomic, update-IsAtomic, verify-IsAtomic,
}
use lightweight_saas_backend.Connection.Calls.{
  Call, activating, creating, deleting, perform, retiring, updating, verifying,
}
use lightweight_saas_backend.Connection.Effects.{activated_rows, conns}
use lightweight_saas_backend.Connection.Model.{Error, Row, is_draft}
use lightweight_saas_backend.Connection.Operations.{
  UpdateInput, activate_connection, delete_connection, retire_connection, update, verify,
}
use lightweight_saas_backend.Connection.Outcome.{
  activate-outcome, create-outcome, delete-outcome, retire-outcome, update-outcome, verify-outcome,
}
use lightweight_saas_backend.Connection.Repository.{
  ConfigPatch, VerifyReport, ended, guarded_by, judged, not_active, not_retired, patched,
  row_has_id, two_active, update_rows,
}
use lightweight_saas_backend.Connection.Service.{Config, CreateInput, Env, create, fresh_connection}
use lightweight_saas_backend.Secrets.{Sealed}
use lightweight_saas_backend.Store.{M, Result, Session, err, ok}
use lightweight_saas_backend.Store.Laws.{IsAtomic}
use lightweight_saas_backend.Text.{Text}

pub data Step : List Row → List Row → Type 0 where
  unchanged : (rows : List Row) → Step rows rows
  created_as :
      (id workspace_id : Text) (config : Config) (now : ℕ) (sealed : Sealed) (rows : List Row)
      → any (row_has_id id) rows ≡ false
      → two_active (
          rows
          ++ (record { conn = fresh_connection id workspace_id config now; sealed = sealed }) ∷ [])
        ≡ false
      → Step rows (
          rows
          ++ (record { conn = fresh_connection id workspace_id config now; sealed = sealed }) ∷ [])
  edited_as :
      (id : Text) (patch : ConfigPatch) (sealed : Option Sealed) (now : ℕ) (rows : List Row)
      → Step rows (update_rows (guarded_by id is_draft) (patched patch sealed now) rows)
  judged_as :
      (id : Text) (report : VerifyReport) (rows : List Row)
      → Step rows (update_rows (row_has_id id) (judged report) rows)
  activated_as :
      (id workspace_id : Text) (now : ℕ) (rows : List Row)
      → two_active (activated_rows id workspace_id now rows) ≡ false
      → Step rows (activated_rows id workspace_id now rows)
  retired_as :
      (id : Text) (now : ℕ) (rows : List Row)
      → Step rows (update_rows (guarded_by id not_retired) (ended now) rows)
  deleted_as :
      (id : Text) (rows : List Row)
      → Step rows (select (λ r. not (guarded_by id not_active r)) rows)

-- What is true of every success, and of no change, is true.
atomic-Step :
    {A : Type 0} (m : M Error A) (s : Session)
    → IsAtomic m
    → ((t : Session) (a : A) → m s ≡ (ok a, t) → Step s.db.connections t.db.connections)
    → Step s.db.connections (m s).1.db.connections
atomic-Step {A} m s atomic steps = go (m s) refl
  where
    go : (r : Result Error A × Session) → m s ≡ r → Step s.db.connections (m s).1.db.connections
    go (ok a, t) e = subst (λ x. Step s.db.connections x.1.db.connections) (sym e) (steps t a e)
    go (err x, t) e =
        subst (λ db. Step s.db.connections (conns db)) (sym (atomic s x (ap (λ r. r.0) e)))
          (unchanged s.db.connections)

create-Step :
    (env : Env) (workspace_public : Text) (input : CreateInput) (ev : Event) (s : Session)
    → Step s.db.connections (create env workspace_public input ev s).1.db.connections
create-Step env workspace_public input ev s =
    atomic-Step (create env workspace_public input ev) s
      (create-IsAtomic env workspace_public input ev)
      (λ t c h.
        let (id, workspace_id, config, sealed, rows, unseen, free) =
          create-outcome env workspace_public input ev s t c h in
        subst (Step s.db.connections) (sym rows) (
          created_as id workspace_id config env.now sealed s.db.connections unseen
            (ap two_active (sym rows) ∙ free)))

update-Step :
    (env : Env) (workspace_public connection_public : Text) (input : UpdateInput) (ev : Event)
    (s : Session)
    → Step s.db.connections
        (update env workspace_public connection_public input ev s).1.db.connections
update-Step env workspace_public connection_public input ev s =
    atomic-Step (update env workspace_public connection_public input ev) s
      (update-IsAtomic env workspace_public connection_public input ev)
      (λ t c h.
        let (id, patch, sealed, _, _, _, rows) =
          update-outcome env workspace_public connection_public input ev s t c h in
        subst (Step s.db.connections) (sym rows)
          (edited_as id patch sealed env.now s.db.connections))

module _ (env : Env) (workspace_public connection_public : Text) (ev : Event) (s : Session) where
  verify-Step :
      Step s.db.connections (verify env workspace_public connection_public ev s).1.db.connections
  verify-Step =
      atomic-Step (verify env workspace_public connection_public ev) s
        (verify-IsAtomic env workspace_public connection_public ev)
        (λ t a h.
          let (id, rows) = verify-outcome env workspace_public connection_public ev s t a h in
          subst (Step s.db.connections) (sym rows) (judged_as id a.1 s.db.connections))

  activate-Step :
      Step s.db.connections
        (activate_connection env workspace_public connection_public ev s).1.db.connections
  activate-Step =
      atomic-Step (activate_connection env workspace_public connection_public ev) s
        (activate_connection-IsAtomic env workspace_public connection_public ev)
        (λ t c h.
          let (_, d, _, _, _, _, _, _, rows, free) =
            activate-outcome env workspace_public connection_public ev s t c h in
          subst (Step s.db.connections) (sym rows) (
            activated_as d.id d.workspace_id env.now s.db.connections
              (ap two_active (sym rows) ∙ free)))

  retire-Step :
      Step s.db.connections
        (retire_connection env workspace_public connection_public ev s).1.db.connections
  retire-Step =
      atomic-Step (retire_connection env workspace_public connection_public ev) s
        (retire_connection-IsAtomic env workspace_public connection_public ev)
        (λ t c h.
          let (id, rows) = retire-outcome env workspace_public connection_public ev s t c h in
          subst (Step s.db.connections) (sym rows) (retired_as id env.now s.db.connections))

  delete-Step :
      Step s.db.connections
        (delete_connection env workspace_public connection_public ev s).1.db.connections
  delete-Step =
      atomic-Step (delete_connection env workspace_public connection_public ev) s
        (delete_connection-IsAtomic env workspace_public connection_public ev)
        (λ t a h.
          let (id, rows) = delete-outcome env workspace_public connection_public ev s t h in
          subst (Step s.db.connections) (sym rows) (deleted_as id s.db.connections))

pub perform-Step :
    (env : Env) (call : Call) (s : Session)
    → Step s.db.connections (perform env call s).db.connections
unfolding perform
perform-Step env (creating workspace_public input ev) s =
    create-Step env workspace_public input ev s
perform-Step env (updating workspace_public connection_public input ev) s =
    update-Step env workspace_public connection_public input ev s
perform-Step env (verifying workspace_public connection_public ev) s =
    verify-Step env workspace_public connection_public ev s
perform-Step env (activating workspace_public connection_public ev) s =
    activate-Step env workspace_public connection_public ev s
perform-Step env (retiring workspace_public connection_public ev) s =
    retire-Step env workspace_public connection_public ev s
perform-Step env (deleting workspace_public connection_public ev) s =
    delete-Step env workspace_public connection_public ev s
