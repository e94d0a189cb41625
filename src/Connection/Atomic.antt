-- ===== src/Connection/Atomic.antt =====
-- The mutations of connections are all or nothing.
use lightweight_saas_backend.Prelude.{ap, arith, find, refl, sym, ◌∙◌, ◌≡◌}
use lightweight_saas_backend.Audit.{Event}
use lightweight_saas_backend.Connection.Model.{
  can_activate, can_delete, can_retire, can_update, client_id_required, client_secret_required,
  driver, id_unavailable, invalid_id, invalid_workspace_id, not_found, realm_required,
  workspace_not_found,
}
use lightweight_saas_backend.Connection.Operations.{
  UpdateInput, activate_connection, checked_patch, checking, delete_connection, delete_recorded,
  reseal, retire_connection, target_of, update, verify,
}
use lightweight_saas_backend.Connection.Repository.{
  conn_of, load_row, open_secret, row_has_id, save_verification, sealed_of,
}
use lightweight_saas_backend.Connection.Service.{
  CreateInput, Env, checked_config, create, insert_recorded, nonempty, normalize_base_url, opening,
  owned, parse_provider, parsed_id, recorded, require_workspace, required, resolve, sealing,
  secret_aad, to_driver, valid_name, writable,
}
use lightweight_saas_backend.PublicId.{connection_prefix, new, parse, workspace_prefix}
use lightweight_saas_backend.Secrets.{open_sealed, seal}
use lightweight_saas_backend.Store.{
  M, Result, Session, continue_with, err, masking, ok, pure, ◌>>=◌,
}
use lightweight_saas_backend.Store.Laws.{IsAtomic, in_tx-IsAtomic, lift-IsAtomic}
use lightweight_saas_backend.Store.Reads.{
  >>=-Reads, Reads, Reads->>=-IsAtomic, lift->>=-Reads, lift-Reads, masking-Reads, query-Reads,
}
use lightweight_saas_backend.Text.{Text, trim_space}
use lightweight_saas_backend.Workspace.Repository.{driver as workspace_driver, get_by_id, has_id}

load_row-Reads : (id : Text) → Reads (load_row id)
unfolding load_row
load_row-Reads id = query-Reads driver (λ db. conn_of (find (row_has_id id) db.connections))

pub open_secret-Reads : (id : Text) → Reads (open_secret id)
unfolding open_secret
open_secret-Reads id = query-Reads driver (λ db. sealed_of (find (row_has_id id) db.connections))

pub get_by_id-Reads : (id : Text) → Reads (get_by_id id)
unfolding get_by_id
get_by_id-Reads id = query-Reads workspace_driver (λ db. find (has_id id) db.workspaces)

pub require_workspace-Reads : (public : Text) → Reads (require_workspace public)
unfolding require_workspace
require_workspace-Reads public =
    let identified = parsed_id invalid_workspace_id (parse workspace_prefix public) in
    lift->>=-Reads identified _ (λ id.
      >>=-Reads (masking to_driver (get_by_id id)) _
        (masking-Reads to_driver (get_by_id id) (get_by_id-Reads id))
        (λ row. lift-Reads (required workspace_not_found row)))

pub resolve-Reads :
    (workspace_public connection_public : Text) → Reads (resolve workspace_public connection_public)
unfolding resolve
resolve-Reads workspace_public connection_public =
    let identified = parsed_id invalid_id (parse connection_prefix connection_public) in
    >>=-Reads (require_workspace workspace_public) _ (require_workspace-Reads workspace_public)
      (λ ws. lift->>=-Reads identified _ (λ id.
        >>=-Reads (load_row id) _ (load_row-Reads id)
          (λ row. lift->>=-Reads (owned ws row) _ (λ c s. refl))))

pub checked_config-Reads : (env : Env) (input : CreateInput) → Reads (checked_config env input)
unfolding checked_config
checked_config-Reads env input = lift->>=-Reads (valid_name (trim_space input.name)) _ (λ a.
    lift->>=-Reads (parse_provider input.provider) _ (λ b.
      lift->>=-Reads (normalize_base_url env.parse_url input.base_url) _ (λ c.
        lift->>=-Reads (nonempty realm_required (trim_space input.realm)) _ (λ d.
          lift->>=-Reads (nonempty client_id_required (trim_space input.client_id)) _ (λ e.
            lift->>=-Reads (nonempty client_secret_required input.client_secret) _
              (λ f s. refl))))))

pub checked_patch-Reads : (env : Env) (input : UpdateInput) → Reads (checked_patch env input)
unfolding checked_patch
checked_patch-Reads env input =
    lift->>=-Reads (checking (λ s. valid_name (trim_space s)) input.name) _ (λ a.
      lift->>=-Reads (checking (normalize_base_url env.parse_url) input.base_url) _ (λ b.
        lift->>=-Reads (checking (λ s. nonempty realm_required (trim_space s)) input.realm) _ (λ c.
          lift->>=-Reads
            (checking (λ s. nonempty client_id_required (trim_space s)) input.client_id) _
            (λ d s. refl))))

pub create-IsAtomic :
    (env : Env) (workspace_public : Text) (input : CreateInput) (ev : Event)
    → IsAtomic (create env workspace_public input ev)
unfolding create insert_recorded
create-IsAtomic env workspace_public input ev =
    Reads->>=-IsAtomic (require_workspace workspace_public) _
      (require_workspace-Reads workspace_public)
      (λ ws. lift-IsAtomic (writable ws) _ (λ w.
        Reads->>=-IsAtomic (checked_config env input) _ (checked_config-Reads env input) (λ config.
          lift-IsAtomic (required id_unavailable (new env.entropy)) _ (λ id.
            lift-IsAtomic
              (sealing (seal env.aead env.ring env.nonce input.client_secret (secret_aad id))) _
              (λ sealed. in_tx-IsAtomic driver _)))))

pub update-IsAtomic :
    (env : Env) (workspace_public connection_public : Text) (input : UpdateInput) (ev : Event)
    → IsAtomic (update env workspace_public connection_public input ev)
unfolding update recorded
update-IsAtomic env workspace_public connection_public input ev =
    Reads->>=-IsAtomic (resolve workspace_public connection_public) _
      (resolve-Reads workspace_public connection_public)
      (λ r. lift-IsAtomic (can_update r.1) _ (λ u.
        Reads->>=-IsAtomic (checked_patch env input) _ (checked_patch-Reads env input) (λ patch.
          lift-IsAtomic (reseal env r.1.id input.client_secret) _
            (λ sealed. in_tx-IsAtomic driver _))))

-- What follows a transaction and touches no table.
then_pure-IsAtomic :
    {E A B : Type 0} (m : M E A) (f : A → B) → IsAtomic m → IsAtomic (m >>= λ a. pure (f a))
then_pure-IsAtomic {E} {A} {B} m f h s e k = go (m s) refl k
  where
    go :
        (r : Result E A × Session)
        → m s ≡ r
        → (continue_with {B = B} (λ a. pure (f a)) r).0 ≡ err e
        → (continue_with {B = B} (λ a. pure (f a)) r).1.db ≡ s.db
    go (ok a, t) q l = absurd (ground arith)
    go (err x, t) q l = ap (λ y. y.1.db) (sym q) ∙ h s x (ap (λ y. y.0) q)

pub verify-IsAtomic :
    (env : Env) (workspace_public connection_public : Text) (ev : Event)
    → IsAtomic (verify env workspace_public connection_public ev)
unfolding verify recorded
verify-IsAtomic env workspace_public connection_public ev =
    Reads->>=-IsAtomic (resolve workspace_public connection_public) _
      (resolve-Reads workspace_public connection_public)
      (λ r. Reads->>=-IsAtomic (open_secret r.1.id) _ (open_secret-Reads r.1.id) (λ found_secret.
        lift-IsAtomic (required not_found found_secret) _ (λ sealed.
          lift-IsAtomic (opening (open_sealed env.aead env.ring sealed (secret_aad r.1.id))) _
            (λ plaintext.
              then_pure-IsAtomic
                (recorded env (save_verification r.1.id (env.verify (target_of r.1 plaintext))) ev)
                (λ c. (c, env.verify (target_of r.1 plaintext))) (in_tx-IsAtomic driver _)))))

pub activate_connection-IsAtomic :
    (env : Env) (workspace_public connection_public : Text) (ev : Event)
    → IsAtomic (activate_connection env workspace_public connection_public ev)
unfolding activate_connection recorded
activate_connection-IsAtomic env workspace_public connection_public ev =
    Reads->>=-IsAtomic (resolve workspace_public connection_public) _
      (resolve-Reads workspace_public connection_public)
      (λ r.
        lift-IsAtomic (writable r.0) _
          (λ w. lift-IsAtomic (can_activate env.now r.1) _ (λ u. in_tx-IsAtomic driver _)))

pub retire_connection-IsAtomic :
    (env : Env) (workspace_public connection_public : Text) (ev : Event)
    → IsAtomic (retire_connection env workspace_public connection_public ev)
unfolding retire_connection recorded
retire_connection-IsAtomic env workspace_public connection_public ev =
    Reads->>=-IsAtomic (resolve workspace_public connection_public) _
      (resolve-Reads workspace_public connection_public)
      (λ r. lift-IsAtomic (can_retire r.1) _ (λ u. in_tx-IsAtomic driver _))

pub delete_connection-IsAtomic :
    (env : Env) (workspace_public connection_public : Text) (ev : Event)
    → IsAtomic (delete_connection env workspace_public connection_public ev)
unfolding delete_connection delete_recorded
delete_connection-IsAtomic env workspace_public connection_public ev =
    Reads->>=-IsAtomic (resolve workspace_public connection_public) _
      (resolve-Reads workspace_public connection_public)
      (λ r. lift-IsAtomic (can_delete r.1) _ (λ u. in_tx-IsAtomic driver _))

-- Every mutation of a connection, in every session, whichever statements fail, COMMIT included:
-- where it returns an error, the tables and the audit trail are what they were. Activation, which
-- writes two rows, is no exception.
pub connection_mutations-IsAtomic :
    (env : Env) (workspace_public connection_public : Text) (input : CreateInput)
    (edit : UpdateInput) (ev : Event)
    → IsAtomic (create env workspace_public input ev)
      × IsAtomic (update env workspace_public connection_public edit ev)
      × IsAtomic (verify env workspace_public connection_public ev)
      × IsAtomic (activate_connection env workspace_public connection_public ev)
      × IsAtomic (retire_connection env workspace_public connection_public ev)
      × IsAtomic (delete_connection env workspace_public connection_public ev)
connection_mutations-IsAtomic env workspace_public connection_public input edit ev = (
  create-IsAtomic env workspace_public input ev,
  update-IsAtomic env workspace_public connection_public edit ev,
  verify-IsAtomic env workspace_public connection_public ev,
  activate_connection-IsAtomic env workspace_public connection_public ev,
  retire_connection-IsAtomic env workspace_public connection_public ev,
  delete_connection-IsAtomic env workspace_public connection_public ev,
)
