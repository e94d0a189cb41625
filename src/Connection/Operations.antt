-- ===== src/Connection/Operations.antt =====
-- internal/connection/service.go: editing, verifying, activating, retiring and deleting.
use lightweight_saas_backend.Prelude.{List, Option, [], if◌then◌else◌, none, some, ℕ}
use lightweight_saas_backend.Audit.{Event}
use lightweight_saas_backend.Connection.Model.{
  Connection, Error, can_activate, can_delete, can_retire, can_update, client_id_required,
  client_secret_required, driver, not_found, not_recorded, realm_required,
}
use lightweight_saas_backend.Connection.Repository.{
  ConfigPatch, VerifyReport, activate, delete, open_secret, retire, save_verification,
  update_config,
}
use lightweight_saas_backend.Connection.Service.{
  Env, VerifyTarget, about, nonempty, normalize_base_url, opening, recorded, required, resolve,
  sealing, secret_aad, valid_name, writable,
}
use lightweight_saas_backend.Secrets.{Sealed, open_sealed, seal}
use lightweight_saas_backend.Store.{M, Result, err, in_tx, lift, ok, pure, record_tx, ◌>>=◌, ◌>>◌}
use lightweight_saas_backend.Text.{Text, text_eq, trim_space}

pub record UpdateInput : Type 0 where
  pub name : Option Text
  pub base_url : Option Text
  pub realm : Option Text
  pub client_id : Option Text
  pub client_secret : Option (List ℕ)

-- A field that is checked where it is given.
abbrev pub checking : (Text → Result Error Text) → Option Text → Result Error (Option Text)
checking check none = ok none
checking check (some s) = elim (check s) [ err e ↦ err e | ok t ↦ ok (some t) ]

unfoldable pub checked_patch : Env → UpdateInput → M Error ConfigPatch
checked_patch env input = do
  name ← lift (checking (λ s. valid_name (trim_space s)) input.name)
  base_url ← lift (checking (normalize_base_url env.parse_url) input.base_url)
  realm ← lift (checking (λ s. nonempty realm_required (trim_space s)) input.realm)
  client_id ← lift (checking (λ s. nonempty client_id_required (trim_space s)) input.client_id)
  pure (record { name = name; base_url = base_url; realm = realm; client_id = client_id })

abbrev pub sealed_option : Result Error Sealed → Result Error (Option Sealed)
sealed_option (err e) = err e
sealed_option (ok s) = ok (some s)

unfoldable pub reseal : Env → Text → Option (List ℕ) → Result Error (Option Sealed)
reseal env id none = ok none
reseal env id (some secret) =
    if text_eq secret []
    then err client_secret_required
    else sealed_option (sealing (seal env.aead env.ring env.nonce secret (secret_aad id)))

unfoldable pub update : Env → Text → Text → UpdateInput → Event → M Error Connection
update env workspace_public connection_public input ev = do
  r ← resolve workspace_public connection_public
  lift (can_update r.1)
  patch ← checked_patch env input
  sealed ← lift (reseal env r.1.id input.client_secret)
  recorded env (update_config r.1.id patch sealed env.now) ev

abbrev pub target_of : Connection → List ℕ → VerifyTarget
target_of c secret = record {
  base_url = c.base_url;
  realm = c.realm;
  client_id = c.client_id;
  client_secret = secret;
}

unfoldable pub verify : Env → Text → Text → Event → M Error (Connection × VerifyReport)
verify env workspace_public connection_public ev = do
  r ← resolve workspace_public connection_public
  found_secret ← open_secret r.1.id
  sealed ← lift (required not_found found_secret)
  plaintext ← lift (opening (open_sealed env.aead env.ring sealed (secret_aad r.1.id)))
  c ← recorded env (save_verification r.1.id (env.verify (target_of r.1 plaintext))) ev
  pure (c, env.verify (target_of r.1 plaintext))

unfoldable pub activate_connection : Env → Text → Text → Event → M Error Connection
activate_connection env workspace_public connection_public ev = do
  r ← resolve workspace_public connection_public
  lift (writable r.0)
  lift (can_activate env.now r.1)
  recorded env (activate r.1.id r.1.workspace_id env.now) ev

unfoldable pub retire_connection : Env → Text → Text → Event → M Error Connection
retire_connection env workspace_public connection_public ev = do
  r ← resolve workspace_public connection_public
  lift (can_retire r.1)
  recorded env (retire r.1.id env.now) ev

-- The transaction of `Delete`.
unfoldable pub delete_recorded : Env → Connection → Event → M Error (Unit {0})
delete_recorded env c ev =
    in_tx driver (do delete c.id; record_tx not_recorded env.writer (about c ev))

unfoldable pub delete_connection : Env → Text → Text → Event → M Error (Unit {0})
delete_connection env workspace_public connection_public ev = do
  r ← resolve workspace_public connection_public
  lift (can_delete r.1)
  delete_recorded env r.1 ev
