-- ===== src/Connection/Recorded.antt =====
-- What the parts that the mutations of the service share did when they succeed.
use mathlib.Core.Path.{subst}
use lightweight_saas_backend.Prelude.{
  Bool-cases, List, Option, [], ap, arith, find, inl, inr, none, refl, some, sym, ◌∙◌, ◌∷◌, ◌≡◌,
}
use lightweight_saas_backend.Audit.{Event}
use lightweight_saas_backend.Connection.Atomic.{require_workspace-Reads, resolve-Reads}
use lightweight_saas_backend.Connection.Effects.{conns, load_row-eq-ok}
use lightweight_saas_backend.Connection.Model.{
  Connection, Error, Row, driver, invalid_id, invalid_workspace_id, not_found, not_recorded,
  workspace_not_found,
}
use lightweight_saas_backend.Connection.Repository.{conn_of, load_row, row_has_id}
use lightweight_saas_backend.Connection.Service.{
  Env, about, owned, parsed_id, recorded, require_workspace, required, resolve, to_driver,
}
use lightweight_saas_backend.PublicId.{
  Parsed, connection_prefix, parse, parsed, unparsed, workspace_prefix,
}
use lightweight_saas_backend.Store.{Db, M, Session, later_faults, masking, ok, record_tx}
use lightweight_saas_backend.Store.Laws.{
  >>=-eq-ok, in_tx-eq-ok, lift->>=-eq-ok, lift-eq-ok, query-eq-ok, record_tx-eq-ok,
}
use lightweight_saas_backend.Store.Reads.{masking-eq-ok}
use lightweight_saas_backend.Text.{Text, text_eq}
use lightweight_saas_backend.Text.Laws.{text_eq_iff}
use lightweight_saas_backend.Workspace.Model.{Workspace}
use lightweight_saas_backend.Workspace.Repository.{driver as workspace_driver, get_by_id, has_id}

pub find_id :
    (id : Text) (rows : List Row) (r : Row) → find (row_has_id id) rows ≡ some r → r.conn.id ≡ id
find_id id [] r h = absurd (ground arith)
find_id id (x ∷ rows) r h = elim (Bool-cases (text_eq x.conn.id id)) [
  | inl hit ↦
      let x_is_r : x ≡ r = ground arith in
      ap (λ y. y.conn.id) (sym x_is_r) ∙ (text_eq_iff x.conn.id id).0 hit
  | inr miss ↦ find_id id rows r (rw miss at h)
]

pub found-row :
    (o : Option Row) (c : Connection) → conn_of o ≡ some c → (r : Row) × (o ≡ some r) × (r.conn ≡ c)
found-row none c h = absurd (ground arith)
found-row (some r) c h = (r, refl, ground arith)

-- The row of the table of workspaces that a public id names.
abbrev pub Named : Text → Db → Workspace → Type 0
Named public db ws =
    (id : Text) × (parse workspace_prefix public ≡ parsed id)
    × (find (has_id id) db.workspaces ≡ some ws)

parsed_id-eq-ok : (e : Error) (p : Parsed) (id : Text) → parsed_id e p ≡ ok id → p ≡ parsed id
parsed_id-eq-ok e (parsed u) id h = ground arith
parsed_id-eq-ok e (unparsed x) id h = absurd (ground arith)

pub owned-eq-ok :
    (ws : Workspace) (row : Option Connection) (c : Connection)
    → owned ws row ≡ ok c
    → (row ≡ some c) × (c.workspace_id ≡ ws.id)
owned-eq-ok ws none c h = absurd (ground arith)
owned-eq-ok ws (some d) c h = elim (Bool-cases (text_eq d.workspace_id ws.id)) [
  | inl same ↦
      let d_is_c : d ≡ c = ground arith in
      (
        ap some d_is_c,
        ap (λ x. x.workspace_id) (sym d_is_c) ∙ (text_eq_iff d.workspace_id ws.id).0 same,
      )
  | inr other ↦ absurd (ground arith)
]

pub required-eq-ok :
    {A : Type 0} (e : Error) (o : Option A) (a : A) → required e o ≡ ok a → o ≡ some a
required-eq-ok e none a h = absurd (ground arith)
required-eq-ok e (some b) a h = ground arith

require_workspace-eq-ok :
    (public : Text) (s t : Session) (ws : Workspace)
    → require_workspace public s ≡ (ok ws, t)
    → Named public s.db ws
unfolding require_workspace get_by_id
require_workspace-eq-ok public s t ws h =
    let (id, was_id, h1) =
      lift->>=-eq-ok (parsed_id invalid_workspace_id (parse workspace_prefix public)) _ s t ws h in
    let (row, u, read, h2) = >>=-eq-ok (masking to_driver (get_by_id id)) _ s t ws h1 in
    let (present, _) = lift-eq-ok (required workspace_not_found row) u t ws h2 in
    let (told, _) =
      query-eq-ok workspace_driver (λ db. find (has_id id) db.workspaces) s u row
        (masking-eq-ok to_driver (get_by_id id) s u row read) in
    (
      id,
      parsed_id-eq-ok invalid_workspace_id (parse workspace_prefix public) id was_id,
      told ∙ required-eq-ok workspace_not_found row ws present,
    )

-- What `resolve` finds: the stored rows that the two public ids name, the one of the other.
pub resolve-eq-ok :
    (workspace_public connection_public : Text) (s t : Session) (r : Workspace × Connection)
    → resolve workspace_public connection_public s ≡ (ok r, t)
    → (parse connection_prefix connection_public ≡ parsed r.1.id)
      × Named workspace_public s.db r.0
      × (conn_of (find (row_has_id r.1.id) s.db.connections) ≡ some r.1)
      × (r.1.workspace_id ≡ r.0.id)
      × (t.db ≡ s.db)
unfolding resolve
resolve-eq-ok workspace_public connection_public s t r h =
    let (ws, u, required_ok, h1) = >>=-eq-ok (require_workspace workspace_public) _ s t r h in
    let (id, was_id, h2) =
      lift->>=-eq-ok (parsed_id invalid_id (parse connection_prefix connection_public)) _ u t r
        h1 in
    let (row, v, loaded, h3) = >>=-eq-ok (load_row id) _ u t r h2 in
    let (c, is_owned, h4) = lift->>=-eq-ok (owned ws row) _ v t r h3 in
    let (told, _) = load_row-eq-ok id u v row loaded in
    let before : u.db ≡ s.db =
      ap (λ x. x.1.db) (sym required_ok) ∙ require_workspace-Reads workspace_public s in
    let (row_c, own) = owned-eq-ok ws row c is_owned in
    let r_is : (ws, c) ≡ r = ground arith in
    let by_id : conn_of (find (row_has_id id) s.db.connections) ≡ some c =
      ap (λ db. conn_of (find (row_has_id id) (conns db))) (sym before) ∙ sym told ∙ row_c in
    let (x, is_x, x_is_c) = found-row (find (row_has_id id) s.db.connections) c by_id in
    let id_is : id ≡ c.id = sym (find_id id s.db.connections x is_x) ∙ ap (λ y. y.id) x_is_c in
    let public = parsed_id-eq-ok invalid_id (parse connection_prefix connection_public) id was_id in
    (
      public ∙ ap parsed (id_is ∙ ap (λ x. x.1.id) r_is),
      subst (λ x. Named workspace_public s.db x.0) r_is
          (require_workspace-eq-ok workspace_public s u ws required_ok),
      subst (λ x. conn_of (find (row_has_id x.1.id) s.db.connections) ≡ some x.1) r_is
          (subst (λ i. conn_of (find (row_has_id i) s.db.connections) ≡ some c) id_is by_id),
      subst (λ x. x.1.workspace_id ≡ x.0.id) r_is own,
      ap (λ x. x.1.db) (sym h) ∙ resolve-Reads workspace_public connection_public s,
    )

-- A mutation of a row inside its transaction: where it starts and what it leaves.
pub recorded-eq-ok :
    (env : Env) (mutation : M Error (Option Connection)) (ev : Event) (s t : Session)
    (c : Connection)
    → recorded env mutation ev s ≡ (ok c, t)
    → (v : Session) × (mutation (record s { faults = later_faults s.faults }) ≡ (ok (some c), v))
      × (t.db.connections ≡ v.db.connections)
unfolding recorded
recorded-eq-ok env mutation ev s t c h =
    let begun = record s { faults = later_faults s.faults } in
    let (u, body, kept) = in_tx-eq-ok driver _ s t c h in
    let (row, v, mutated, h1) = >>=-eq-ok mutation _ begun u c body in
    let (d, is_row, h2) = lift->>=-eq-ok (required not_found row) _ v u c h1 in
    let (_, w, recorded_ok, h3) =
      >>=-eq-ok (record_tx not_recorded env.writer (about d ev)) _ v u c h2 in
    let (_, db) = record_tx-eq-ok not_recorded env.writer (about d ev) v w (ground arith) in
    let d_is_c : d ≡ c = ground arith in
    let row_is : row ≡ some c = required-eq-ok not_found row d is_row ∙ ap some d_is_c in
    (v, subst (λ x. mutation begun ≡ (ok x, v)) row_is mutated, ground arith)
