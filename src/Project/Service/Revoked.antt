-- ===== src/Project/Service/Revoked.antt =====
-- What a success of `RevokeCredential` leaves in the tables.
use mathlib.Core.Path.{subst}
use lightweight_saas_backend.Prelude.{
  All, Bool, Bool-cases, List, Option, [], any, ap, arith, find, inl, inr, none, refl, some, sym,
  true, ℕ, ◌∙◌, ◌∷◌, ◌≡◌,
}
use lightweight_saas_backend.Audit.{Event}
use lightweight_saas_backend.Project.Model.{Credential, is_set}
use lightweight_saas_backend.Project.Repository.{
  credential_has_id, credential_not_found, driver, get_credential, invalid_credential_id,
  not_recorded, revocable, revoke_credential_row, revoke_rows, revoked_at_by, revoked_row,
  set_credentials, update_where,
}
use lightweight_saas_backend.Project.Service.{
  Env, about_credential, keep_already_revoked, parsed_id, required, resolve, to_internal,
}
use lightweight_saas_backend.Project.Service.Credentials.{
  owned_credential, revoke_credential, revoke_recorded,
}
use lightweight_saas_backend.Project.Service.Laws.{parsed_id-eq-ok, required-eq-ok}
use lightweight_saas_backend.PublicId.{credential_prefix, parse, parsed}
use lightweight_saas_backend.Store.{Session, later_faults, masking, ok, record_tx}
use lightweight_saas_backend.Store.Laws.{
  >>=-eq-ok, in_tx-eq-ok, lift->>=-eq-ok, lift-eq-ok, query-eq-ok, record_tx-eq-ok, savepoint-eq-ok,
  statement-eq-ok,
}
use lightweight_saas_backend.Store.Reads.{masking-eq-ok}
use lightweight_saas_backend.Text.{Text, text_eq}

abbrev pub AllRevoked : Text → List Credential → Type 0
AllRevoked id = All (λ c. text_eq c.id id ≡ true → is_set c.revoked_at ≡ true)

revoked-AllRevoked :
    (id by : Text) (now : ℕ) (cs : List Credential)
    → AllRevoked id (update_where (revocable id) (revoked_at_by now by) cs)
revoked-AllRevoked id by now [] = tt
revoked-AllRevoked id by now (c ∷ cs) = (
  elim (Bool-cases (revocable id c)) [
    | inl hit ↦ rw hit (λ e. refl)
    | inr miss ↦ rw miss (λ e. ground arith)
  ],
  revoked-AllRevoked id by now cs,
)

revoked_row-eq-ok :
    (affected : Bool) (current row : Option Credential)
    → revoked_row affected current ≡ ok row
    → row ≡ current
unfolding revoked_row
revoked_row-eq-ok affected none row h = ground arith
revoked_row-eq-ok affected (some c) row h = ground arith

revoke_row-eq-ok :
    (id by : Text) (now : ℕ) (s t : Session) (row : Option Credential)
    → revoke_credential_row id by now s ≡ (ok row, t)
    → (row ≡ find (credential_has_id id) t.db.credentials)
      × (t.db
          ≡ set_credentials s.db
              (update_where (revocable id) (revoked_at_by now by) s.db.credentials))
unfolding revoke_credential_row revoke_rows get_credential revoked_row
revoke_row-eq-ok id by now s t row h =
    let begun = record s { faults = later_faults s.faults } in
    let inner = savepoint-eq-ok driver _ s t row h in
    let (affected, u, updated, rest) = >>=-eq-ok (revoke_rows id by now) _ begun t row inner in
    let (current, v, read, decided) = >>=-eq-ok (get_credential id) _ u t row rest in
    let wrote =
      statement-eq-ok driver
        (λ db. ok (
          any (revocable id) db.credentials,
          set_credentials db (update_where (revocable id) (revoked_at_by now by) db.credentials),
        ))
        begun u affected updated in
    let (told, same) =
      query-eq-ok driver (λ db. find (credential_has_id id) db.credentials) u v current read in
    let (kept, end) = lift-eq-ok (revoked_row affected current) v t row decided in
    let after : t.db ≡ u.db = ap (λ x. x.db) end ∙ same in
    (
      revoked_row-eq-ok affected current row kept
          ∙ sym told
          ∙ ap (λ db. find (credential_has_id id) db.credentials) (sym after),
      after ∙ ground arith,
    )

revoked_by-eq-ok :
    (env : Env) (id by : Text) (ev : Event) (s t : Session) (c : Credential)
    → revoke_recorded env id by ev s ≡ (ok c, t)
    → (find (credential_has_id id) t.db.credentials ≡ some c) × AllRevoked id t.db.credentials
unfolding revoke_recorded
revoked_by-eq-ok env id by ev s t c h =
    let mutation = masking keep_already_revoked (revoke_credential_row id by env.now) in
    let begun = record s { faults = later_faults s.faults } in
    let (z, inner, committed) = in_tx-eq-ok driver _ s t c h in
    let (row, u, mutated, rest) = >>=-eq-ok mutation _ begun z c inner in
    let (d, told, rest2) = lift->>=-eq-ok (required credential_not_found row) _ u z c rest in
    let (_, w, wrote, last) =
      >>=-eq-ok (record_tx not_recorded env.writer (about_credential d ev)) _ u z c rest2 in
    let (_, after) = record_tx-eq-ok not_recorded env.writer (about_credential d ev) u w wrote in
    let d_is_c : d ≡ c = ground arith in
    let w_is_z : w ≡ z = ground arith in
    let (is_row, updated) = revoke_row-eq-ok id by env.now begun u row (
      masking-eq-ok keep_already_revoked (revoke_credential_row id by env.now) begun u row
        mutated) in
    let same : t.db.credentials ≡ u.db.credentials =
      ap (λ db. db.credentials) (sym committed ∙ ap (λ x. x.db) (sym w_is_z) ∙ after) in
    (
      ap (find (credential_has_id id)) same
          ∙ sym is_row
          ∙ required-eq-ok credential_not_found row d told
          ∙ ap some d_is_c,
      subst (AllRevoked id) (sym (same ∙ ap (λ db. db.credentials) updated))
          (revoked-AllRevoked id by env.now s.db.credentials),
    )

-- After a success of `RevokeCredential`: the row that was returned is the one that the public id
-- names, and every row of that id is revoked.
pub revoke_credential-eq-ok :
    (env : Env) (workspace_public project_public credential_public by : Text) (ev : Event)
    (s t : Session) (c : Credential)
    → revoke_credential env workspace_public project_public credential_public by ev s ≡ (ok c, t)
    → (id : Text) × (parse credential_prefix credential_public ≡ parsed id)
      × (find (credential_has_id id) t.db.credentials ≡ some c)
      × AllRevoked id t.db.credentials
unfolding revoke_credential
revoke_credential-eq-ok env workspace_public project_public credential_public by ev s t c h =
    let (q, u, found_q, rest) = >>=-eq-ok (resolve workspace_public project_public) _ s t c h in
    let identified = parsed_id invalid_credential_id (parse credential_prefix credential_public) in
    let (id, is_id, rest2) = lift->>=-eq-ok identified _ u t c rest in
    let (row, v, read, rest3) = >>=-eq-ok (masking to_internal (get_credential id)) _ u t c rest2 in
    let (_, here, rest4) = lift->>=-eq-ok (owned_credential q row) _ v t c rest3 in
    let (is_c, ended) = revoked_by-eq-ok env id by ev v t c rest4 in
    (
      id,
      parsed_id-eq-ok invalid_credential_id (parse credential_prefix credential_public) id is_id,
      is_c,
      ended,
    )
