-- ===== src/Connection/Outcome.antt =====
-- What each mutation of the service did to the table of connections when it succeeds.
use lightweight_saas_backend.Prelude.{
  Option, [], any, ap, arith, false, find, not, select, some, sym, ◌++◌, ◌∙◌, ◌∷◌, ◌≡◌,
}
use lightweight_saas_backend.Audit.{Event}
use lightweight_saas_backend.Connection.Atomic.{
  checked_config-Reads, checked_patch-Reads, open_secret-Reads, require_workspace-Reads,
}
use lightweight_saas_backend.Connection.Effects.{
  activate-eq-ok, activated_rows, conns, delete-eq-ok, insert_connection-eq-ok, retire-eq-ok,
  save_verification-eq-ok, update_config-eq-ok,
}
use lightweight_saas_backend.Connection.Model.{
  Connection, Row, can_activate, can_delete, can_retire, can_update, driver, id_unavailable,
  is_draft, not_found, not_recorded,
}
use lightweight_saas_backend.Connection.Operations.{
  UpdateInput, activate_connection, checked_patch, delete_connection, delete_recorded, reseal,
  retire_connection, target_of, update, verify,
}
use lightweight_saas_backend.Connection.Recorded.{Named, recorded-eq-ok, resolve-eq-ok}
use lightweight_saas_backend.Connection.Repository.{
  ConfigPatch, VerifyReport, activate, conn_of, delete, ended, guarded_by, insert_connection,
  judged, not_active, not_retired, open_secret, patched, retire, row_has_id, save_verification,
  two_active, update_config, update_rows,
}
use lightweight_saas_backend.Connection.Service.{
  Config, CreateInput, Env, about, checked_config, create, fresh_connection, insert_recorded,
  opening, recorded, require_workspace, required, resolve, sealing, secret_aad, writable,
}
use lightweight_saas_backend.PublicId.{connection_prefix, new, parse, parsed}
use lightweight_saas_backend.Secrets.{Sealed, open_sealed, seal}
use lightweight_saas_backend.Store.{Session, later_faults, ok, record_tx}
use lightweight_saas_backend.Store.Laws.{>>=-eq-ok, in_tx-eq-ok, lift->>=-eq-ok, record_tx-eq-ok}
use lightweight_saas_backend.Text.{Text}
use lightweight_saas_backend.Workspace.Model.{Workspace, is_archived, public_id}

pub update-outcome :
    (env : Env) (workspace_public connection_public : Text) (input : UpdateInput) (ev : Event)
    (s t : Session) (c : Connection)
    → update env workspace_public connection_public input ev s ≡ (ok c, t)
    → (id : Text) × (patch : ConfigPatch) × (sealed : Option Sealed) × (parse connection_prefix
          connection_public
        ≡ parsed id)
      × ((u : Session) × (v : Session) × (checked_patch env input u ≡ (ok patch, v)))
      × (reseal env id input.client_secret ≡ ok sealed)
      × (t.db.connections
          ≡ update_rows (guarded_by id is_draft) (patched patch sealed env.now) s.db.connections)
unfolding update
update-outcome env workspace_public connection_public input ev s t c h =
    let (r, u, resolved, h1) = >>=-eq-ok (resolve workspace_public connection_public) _ s t c h in
    let (public, _, _, _, same) = resolve-eq-ok workspace_public connection_public s u r resolved in
    let (_, _, h2) = lift->>=-eq-ok (can_update r.1) _ u t c h1 in
    let (patch, v, checked, h3) = >>=-eq-ok (checked_patch env input) _ u t c h2 in
    let (sealed, resealed_ok, h4) =
      lift->>=-eq-ok (reseal env r.1.id input.client_secret) _ v t c h3 in
    let (w, mutated, kept) =
      recorded-eq-ok env (update_config r.1.id patch sealed env.now) ev v t c h4 in
    let change = update_rows (guarded_by r.1.id is_draft) (patched patch sealed env.now) in
    let before : v.db ≡ s.db =
      ap (λ x. x.1.db) (sym checked) ∙ checked_patch-Reads env input u ∙ same in
    (
      r.1.id,
      patch,
      sealed,
      public,
      (u, v, checked),
      resealed_ok,
      kept
          ∙ update_config-eq-ok r.1.id patch sealed env.now
              (record v { faults = later_faults v.faults }) w (some c) mutated
          ∙ ap (λ db. change (conns db)) before,
    )

pub verify-outcome :
    (env : Env) (workspace_public connection_public : Text) (ev : Event) (s t : Session)
    (a : Connection × VerifyReport)
    → verify env workspace_public connection_public ev s ≡ (ok a, t)
    → (id : Text) × (t.db.connections ≡ update_rows (row_has_id id) (judged a.1) s.db.connections)
unfolding verify
verify-outcome env workspace_public connection_public ev s t a h =
    let (r, u, resolved, h1) = >>=-eq-ok (resolve workspace_public connection_public) _ s t a h in
    let (_, _, _, _, same) = resolve-eq-ok workspace_public connection_public s u r resolved in
    let (found_secret, v, opened_ok, h2) = >>=-eq-ok (open_secret r.1.id) _ u t a h1 in
    let (sealed, _, h3) = lift->>=-eq-ok (required not_found found_secret) _ v t a h2 in
    let (plaintext, _, h4) =
      lift->>=-eq-ok (opening (open_sealed env.aead env.ring sealed (secret_aad r.1.id))) _ v t a
        h3 in
    let report = env.verify (target_of r.1 plaintext) in
    let (c, w, recorded_ok, h5) =
      >>=-eq-ok (recorded env (save_verification r.1.id report) ev) _ v t a h4 in
    let (x, mutated, kept) =
      recorded-eq-ok env (save_verification r.1.id report) ev v w c recorded_ok in
    let before : v.db ≡ s.db =
      ap (λ y. y.1.db) (sym opened_ok) ∙ open_secret-Reads r.1.id u ∙ same in
    let report_is : report ≡ a.1 = ground arith in
    let w_is_t : w ≡ t = ground arith in
    (
      r.1.id,
      ap (λ y. y.db.connections) (sym w_is_t)
          ∙ kept
          ∙ save_verification-eq-ok r.1.id report (record v { faults = later_faults v.faults }) x
              (some c) mutated
          ∙ ap (λ db. update_rows (row_has_id r.1.id) (judged report) (conns db)) before
          ∙ ap (λ rep. update_rows (row_has_id r.1.id) (judged rep) s.db.connections) report_is,
    )

pub activate-outcome :
    (env : Env) (workspace_public connection_public : Text) (ev : Event) (s t : Session)
    (c : Connection)
    → activate_connection env workspace_public connection_public ev s ≡ (ok c, t)
    → (ws : Workspace) × (d : Connection) × (parse connection_prefix connection_public
        ≡ parsed d.id)
      × Named workspace_public s.db ws
      × (conn_of (find (row_has_id d.id) s.db.connections) ≡ some d)
      × (is_archived ws ≡ false)
      × (d.workspace_id ≡ ws.id)
      × (can_activate env.now d ≡ ok tt)
      × (t.db.connections ≡ activated_rows d.id d.workspace_id env.now s.db.connections)
      × (two_active t.db.connections ≡ false)
unfolding activate_connection
activate-outcome env workspace_public connection_public ev s t c h =
    let (r, u, resolved, h1) = >>=-eq-ok (resolve workspace_public connection_public) _ s t c h in
    let (public, named, row, own, same) =
      resolve-eq-ok workspace_public connection_public s u r resolved in
    let (_, live, h2) = lift->>=-eq-ok (writable r.0) _ u t c h1 in
    let (_, ready, h3) = lift->>=-eq-ok (can_activate env.now r.1) _ u t c h2 in
    let (w, mutated, kept) =
      recorded-eq-ok env (activate r.1.id r.1.workspace_id env.now) ev u t c h3 in
    let (rows, free) =
      activate-eq-ok r.1.id r.1.workspace_id env.now (record u { faults = later_faults u.faults }) w
        (some c) mutated in
    (
      r.0,
      r.1,
      public,
      named,
      row,
      ground arith,
      own,
      ready,
      kept ∙ rows ∙ ap (λ db. activated_rows r.1.id r.1.workspace_id env.now (conns db)) same,
      ap two_active kept ∙ free,
    )

pub retire-outcome :
    (env : Env) (workspace_public connection_public : Text) (ev : Event) (s t : Session)
    (c : Connection)
    → retire_connection env workspace_public connection_public ev s ≡ (ok c, t)
    → (id : Text) × (t.db.connections
        ≡ update_rows (guarded_by id not_retired) (ended env.now) s.db.connections)
unfolding retire_connection
retire-outcome env workspace_public connection_public ev s t c h =
    let (r, u, resolved, h1) = >>=-eq-ok (resolve workspace_public connection_public) _ s t c h in
    let (_, _, _, _, same) = resolve-eq-ok workspace_public connection_public s u r resolved in
    let (_, _, h2) = lift->>=-eq-ok (can_retire r.1) _ u t c h1 in
    let (w, mutated, kept) = recorded-eq-ok env (retire r.1.id env.now) ev u t c h2 in
    (
      r.1.id,
      kept
          ∙ retire-eq-ok r.1.id env.now (record u { faults = later_faults u.faults }) w (some c)
              mutated
          ∙ ap (λ db. update_rows (guarded_by r.1.id not_retired) (ended env.now) (conns db)) same,
    )

pub delete-outcome :
    (env : Env) (workspace_public connection_public : Text) (ev : Event) (s t : Session)
    → delete_connection env workspace_public connection_public ev s ≡ (ok tt, t)
    → (id : Text) × (t.db.connections
        ≡ select (λ r. not (guarded_by id not_active r)) s.db.connections)
unfolding delete_connection delete_recorded
delete-outcome env workspace_public connection_public ev s t h =
    let (r, u, resolved, h1) = >>=-eq-ok (resolve workspace_public connection_public) _ s t tt h in
    let (_, _, _, _, same) = resolve-eq-ok workspace_public connection_public s u r resolved in
    let (_, _, h2) = lift->>=-eq-ok (can_delete r.1) _ u t tt h1 in
    let begun = record u { faults = later_faults u.faults } in
    let (v, body, kept) = in_tx-eq-ok driver _ u t tt h2 in
    let (_, w, deleted, h3) = >>=-eq-ok (delete r.1.id) _ begun v tt body in
    let (_, db) = record_tx-eq-ok not_recorded env.writer (about r.1 ev) w v h3 in
    let rows : t.db.connections ≡ w.db.connections = ap conns (sym kept) ∙ ap conns db in
    (
      r.1.id,
      rows
          ∙ delete-eq-ok r.1.id begun w deleted
          ∙ ap (λ d. select (λ x. not (guarded_by r.1.id not_active x)) (conns d)) same,
    )

pub create-outcome :
    (env : Env) (workspace_public : Text) (input : CreateInput) (ev : Event) (s t : Session)
    (c : Connection)
    → create env workspace_public input ev s ≡ (ok c, t)
    → (id : Text) × (workspace_id : Text) × (config : Config) × (sealed : Sealed)
      × (t.db.connections
          ≡ s.db.connections
            ++ (record { conn = fresh_connection id workspace_id config env.now; sealed = sealed })
              ∷ [])
      × (any (row_has_id id) s.db.connections ≡ false)
      × (two_active t.db.connections ≡ false)
unfolding create insert_recorded fresh_connection
create-outcome env workspace_public input ev s t c h =
    let (ws, u, required_ok, h1) = >>=-eq-ok (require_workspace workspace_public) _ s t c h in
    let (_, _, h2) = lift->>=-eq-ok (writable ws) _ u t c h1 in
    let (config, v, checked, h3) = >>=-eq-ok (checked_config env input) _ u t c h2 in
    let (id, _, h4) = lift->>=-eq-ok (required id_unavailable (new env.entropy)) _ v t c h3 in
    let (sealed, _, h5) =
      lift->>=-eq-ok
        (sealing (seal env.aead env.ring env.nonce input.client_secret (secret_aad id))) _ v t c
        h4 in
    let begun = record v { faults = later_faults v.faults } in
    let (w, body, kept) = in_tx-eq-ok driver _ v t c h5 in
    let fresh = fresh_connection id ws.id config env.now in
    let row : Row = record { conn = fresh; sealed = sealed } in
    let (_, x, inserted, h6) = >>=-eq-ok (insert_connection row) _ begun w c body in
    let (_, y, recorded_ok, h7) =
      >>=-eq-ok
        (record_tx not_recorded env.writer (about fresh (record ev { workspace = public_id ws }))) _
        x w c h6 in
    let (_, db) =
      record_tx-eq-ok not_recorded env.writer (about fresh (record ev { workspace = public_id ws }))
        x y recorded_ok in
    let y_is_w : y ≡ w = ground arith in
    let (rows, unseen, free) = insert_connection-eq-ok row begun x inserted in
    let same : t.db.connections ≡ x.db.connections =
      ap conns (sym kept) ∙ ap (λ z. z.db.connections) (sym y_is_w) ∙ ap conns db in
    let before : v.db ≡ s.db =
      ap (λ z. z.1.db) (sym checked)
      ∙ checked_config-Reads env input u
      ∙ ap (λ z. z.1.db) (sym required_ok)
      ∙ require_workspace-Reads workspace_public s in
    (
      id,
      ws.id,
      config,
      sealed,
      same ∙ rows ∙ ap (λ d. conns d ++ row ∷ []) before,
      ap (λ d. any (row_has_id id) (conns d)) (sym before) ∙ unseen,
      ap two_active same ∙ free,
    )
