-- ===== src/Connection/Effects.antt =====
-- What the statements and transactions on connections leave in the table when they succeed.
use lightweight_saas_backend.Prelude.{
  Bool, Bool-cases, List, Option, [], any, ap, arith, false, find, if◌then◌else◌, inl, inr, not,
  select, sym, ℕ, ◌++◌, ◌||◌, ◌∙◌, ◌∷◌, ◌≡◌,
}
use lightweight_saas_backend.Connection.Model.{
  Connection, Error, Row, active_cannot_delete, driver, is_draft, workspace_has_active,
}
use lightweight_saas_backend.Connection.Repository.{
  ConfigPatch, VerifyReport, activate, after_promote, after_retire, after_update_config, conn_of,
  delete, ended, guarded_by, incumbent, insert_connection, judged, load_row, not_active,
  not_retired, patched, promote_row, promoted, retire, row_has_id, save_verification,
  set_connections, two_active, update_config, update_guarded, update_rows,
}
use lightweight_saas_backend.Secrets.{Sealed}
use lightweight_saas_backend.Store.{Db, Result, Session, err, later_faults, lift, ok, ◌>>=◌}
use lightweight_saas_backend.Store.Laws.{
  >>=-eq-ok, lift-eq-ok, query-eq-ok, savepoint-eq-ok, statement-eq-ok,
}
use lightweight_saas_backend.Text.{Text}

update_guarded-eq-ok :
    (guard : Row → Bool) (f : Row → Row) (s t : Session) (affected : Bool)
    → update_guarded guard f s ≡ (ok affected, t)
    → t.db.connections ≡ update_rows guard f s.db.connections
unfolding update_guarded
update_guarded-eq-ok guard f s t affected h =
    let k =
      statement-eq-ok driver
        (λ db.
          ok (any guard db.connections, set_connections db (update_rows guard f db.connections)))
        s t affected h in
    ground arith

promote_row-eq-ok :
    (id : Text) (now : ℕ) (s t : Session) (affected : Bool)
    → promote_row id now s ≡ (ok affected, t)
    → (t.db.connections ≡ update_rows (guarded_by id is_draft) (promoted now) s.db.connections)
      × (two_active t.db.connections ≡ false)
unfolding promote_row
promote_row-eq-ok id now s t affected h =
    let rows = update_rows (guarded_by id is_draft) (promoted now) s.db.connections in
    let k =
      statement-eq-ok driver
        (λ db.
          let rows = update_rows (guarded_by id is_draft) (promoted now) db.connections in
          if two_active rows
          then err workspace_has_active
          else ok (any (guarded_by id is_draft) db.connections, set_connections db rows))
        s t affected h in
    elim (Bool-cases (two_active rows)) [
      | inl clash ↦ absurd (ground arith)
      | inr free ↦
          let same : t.db.connections ≡ rows = ground arith in (same, ap two_active same ∙ free)
    ]

pub load_row-eq-ok :
    (id : Text) (s t : Session) (row : Option Connection)
    → load_row id s ≡ (ok row, t)
    → (row ≡ conn_of (find (row_has_id id) s.db.connections)) × (t.db ≡ s.db)
unfolding load_row
load_row-eq-ok id s t row h =
    let (told, same) =
      query-eq-ok driver (λ db. conn_of (find (row_has_id id) db.connections)) s t row h in
    (sym told, same)

-- The end of a savepoint: the row is read, and a decision taken on it.
reloads :
    (id : Text) (ending : Option Connection → Result Error (Option Connection)) (s t : Session)
    (row : Option Connection)
    → (load_row id >>= λ current. lift (ending current)) s ≡ (ok row, t)
    → t.db ≡ s.db
reloads id ending s t row h =
    let (current, u, read, decided) = >>=-eq-ok (load_row id) _ s t row h in
    let (_, end) = lift-eq-ok (ending current) u t row decided in
    ap (λ x. x.db) end ∙ (load_row-eq-ok id s u current read).1

abbrev pub conns : Db → List Row
conns db = db.connections

pub update_config-eq-ok :
    (id : Text) (patch : ConfigPatch) (sealed : Option Sealed) (now : ℕ) (s t : Session)
    (row : Option Connection)
    → update_config id patch sealed now s ≡ (ok row, t)
    → t.db.connections
      ≡ update_rows (guarded_by id is_draft) (patched patch sealed now) s.db.connections
unfolding update_config
update_config-eq-ok id patch sealed now s t row h =
    let begun = record s { faults = later_faults s.faults } in
    let inner = savepoint-eq-ok driver _ s t row h in
    let (affected, u, updated, rest) =
      >>=-eq-ok (update_guarded (guarded_by id is_draft) (patched patch sealed now)) _ begun t row
        inner in
    ap conns (reloads id (after_update_config affected) u t row rest)
    ∙ update_guarded-eq-ok (guarded_by id is_draft) (patched patch sealed now) begun u affected
        updated

pub save_verification-eq-ok :
    (id : Text) (report : VerifyReport) (s t : Session) (row : Option Connection)
    → save_verification id report s ≡ (ok row, t)
    → t.db.connections ≡ update_rows (row_has_id id) (judged report) s.db.connections
unfolding save_verification
save_verification-eq-ok id report s t row h =
    let begun = record s { faults = later_faults s.faults } in
    let inner = savepoint-eq-ok driver _ s t row h in
    let (affected, u, updated, rest) =
      >>=-eq-ok (update_guarded (row_has_id id) (judged report)) _ begun t row inner in
    ap conns (load_row-eq-ok id u t row rest).1
    ∙ update_guarded-eq-ok (row_has_id id) (judged report) begun u affected updated

pub retire-eq-ok :
    (id : Text) (now : ℕ) (s t : Session) (row : Option Connection)
    → retire id now s ≡ (ok row, t)
    → t.db.connections ≡ update_rows (guarded_by id not_retired) (ended now) s.db.connections
unfolding retire
retire-eq-ok id now s t row h =
    let begun = record s { faults = later_faults s.faults } in
    let inner = savepoint-eq-ok driver _ s t row h in
    let (affected, u, updated, rest) =
      >>=-eq-ok (update_guarded (guarded_by id not_retired) (ended now)) _ begun t row inner in
    ap conns (reloads id (after_retire affected) u t row rest)
    ∙ update_guarded-eq-ok (guarded_by id not_retired) (ended now) begun u affected updated

-- The table after an activation: the incumbents retired, then the draft promoted.
abbrev pub activated_rows : Text → Text → ℕ → List Row → List Row
activated_rows id workspace_id now rows =
    update_rows (guarded_by id is_draft) (promoted now)
      (update_rows (incumbent id workspace_id) (ended now) rows)

pub activate-eq-ok :
    (id workspace_id : Text) (now : ℕ) (s t : Session) (row : Option Connection)
    → activate id workspace_id now s ≡ (ok row, t)
    → (t.db.connections ≡ activated_rows id workspace_id now s.db.connections)
      × (two_active t.db.connections ≡ false)
unfolding activate
activate-eq-ok id workspace_id now s t row h =
    let begun = record s { faults = later_faults s.faults } in
    let inner = savepoint-eq-ok driver _ s t row h in
    let (a, u, ended_all, rest) =
      >>=-eq-ok (update_guarded (incumbent id workspace_id) (ended now)) _ begun t row inner in
    let first = update_guarded-eq-ok (incumbent id workspace_id) (ended now) begun u a ended_all in
    let (affected, v, promoted_one, rest2) = >>=-eq-ok (promote_row id now) _ u t row rest in
    let (promotion, free) = promote_row-eq-ok id now u v affected promoted_one in
    let same = ap conns (reloads id (after_promote affected) v t row rest2) in
    (
      same ∙ promotion ∙ ap (update_rows (guarded_by id is_draft) (promoted now)) first,
      ap two_active same ∙ free,
    )

pub insert_connection-eq-ok :
    (r : Row) (s t : Session)
    → insert_connection r s ≡ (ok tt, t)
    → (t.db.connections ≡ s.db.connections ++ r ∷ [])
      × (any (row_has_id r.conn.id) s.db.connections ≡ false)
      × (two_active t.db.connections ≡ false)
unfolding insert_connection
insert_connection-eq-ok r s t h =
    let rows = s.db.connections ++ r ∷ [] in
    let k =
      statement-eq-ok driver
        (λ db.
          if any (row_has_id r.conn.id) db.connections || two_active (db.connections ++ r ∷ [])
          then err driver
          else ok (tt, set_connections db (db.connections ++ r ∷ [])))
        s t tt h in
    elim (Bool-cases (two_active rows)) [
      | inl clash ↦ absurd (ground arith)
      | inr free ↦
          let same : t.db.connections ≡ rows = ground arith in
          (same, ground arith, ap two_active same ∙ free)
    ]

pub delete-eq-ok :
    (id : Text) (s t : Session)
    → delete id s ≡ (ok tt, t)
    → t.db.connections ≡ select (λ r. not (guarded_by id not_active r)) s.db.connections
unfolding delete
delete-eq-ok id s t h =
    let k =
      statement-eq-ok driver
        (λ db.
          if any (guarded_by id not_active) db.connections
          then ok (
            tt,
            set_connections db (select (λ r. not (guarded_by id not_active r)) db.connections),
          )
          else err active_cannot_delete)
        s t tt h in
    elim (Bool-cases (any (guarded_by id not_active) s.db.connections)) [
      | inl hit ↦ ground arith
      | inr miss ↦ absurd (ground arith)
    ]
