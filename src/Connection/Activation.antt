-- ===== src/Connection/Activation.antt =====
-- What an activation asks for and what it leaves.
use mathlib.Core.Path.{subst}
use lightweight_saas_backend.Prelude.{
  Bool-cases, List, [], any, ap, arith, false, find, inl, inr, map, refl, some, true, ℕ, ◌∙◌, ◌∷◌,
  ◌≡◌,
}
use lightweight_saas_backend.Audit.{Event}
use lightweight_saas_backend.Connection.Changes.{ended-IsTame, promoted-IsTame}
use lightweight_saas_backend.Connection.Effects.{activated_rows}
use lightweight_saas_backend.Connection.Model.{
  Connection, Row, Status, activation_of, active, can_activate, draft, is_draft, is_verified,
  retired, verified_for_activation,
}
use lightweight_saas_backend.Connection.Operations.{activate_connection}
use lightweight_saas_backend.Connection.Outcome.{activate-outcome}
use lightweight_saas_backend.Connection.Recorded.{Named, find_id, found-row}
use lightweight_saas_backend.Connection.Repository.{
  conn_of, ended, guarded_by, incumbent, promoted, row_has_id,
}
use lightweight_saas_backend.Connection.Service.{Env}
use lightweight_saas_backend.Connection.View.{seen_option, view}
use lightweight_saas_backend.Connection.Views.{changed, find-map, promotes, retires}
use lightweight_saas_backend.PublicId.{connection_prefix, parse, parsed}
use lightweight_saas_backend.Store.{Session, ok}
use lightweight_saas_backend.Text.{Text, text_eq}
use lightweight_saas_backend.Text.Laws.{text_eq_iff}
use lightweight_saas_backend.Workspace.Model.{Workspace, is_archived}

-- What `CanActivate` lets through.
can_activate-eq-ok :
    (now : ℕ) (c : Connection)
    → can_activate now c ≡ ok tt
    → (is_draft c.status ≡ true) × (is_verified now c ≡ true)
unfolding can_activate verified_for_activation activation_of
can_activate-eq-ok now c h = go c.status refl
  where
    go : (st : Status) → c.status ≡ st → (is_draft c.status ≡ true) × (is_verified now c ≡ true)
    go draft e = (rw e refl, ground (arith, e, h))
    go active e = absurd (ground (arith, e, h))
    go retired e = absurd (ground (arith, e, h))

module _ (id workspace_id : Text) (now : ℕ) where
  no_incumbent :
      (rows : List Row)
      → any (incumbent id workspace_id) (activated_rows id workspace_id now rows) ≡ false
  unfolding ended promoted
  no_incumbent [] = refl
  no_incumbent (r ∷ rows) =
      let rest = no_incumbent rows in
      elim (Bool-cases (incumbent id workspace_id r)) [
        | inl hit ↦
            let other : text_eq r.conn.id id ≡ false = ground arith in rw (hit, other, rest) refl
        | inr miss ↦ rw miss (elim (Bool-cases (guarded_by id is_draft r)) [
          | inl promotes_it ↦
              let same : text_eq r.conn.id id ≡ true = ground arith in
              rw (promotes_it, same, rest) (ground arith)
          | inr idle ↦ rw (idle, miss, rest) refl
        ])
      ]

  in_service :
      (rows : List Row) (r : Row)
      → find (row_has_id id) rows ≡ some r
      → is_draft r.conn.status ≡ true
      → view id (activated_rows id workspace_id now rows) ≡ some (r.conn.workspace_id, active)
  unfolding retires promotes ended promoted
  in_service rows r h was_draft =
      let first =
        find-map (retires id workspace_id now) (ended-IsTame (incumbent id workspace_id) now) id
          rows in
      let second =
        find-map (promotes id workspace_id now) (promoted-IsTame id now) id
          (map (retires id workspace_id now) rows) in
      let same : text_eq r.conn.id id ≡ true = (text_eq_iff r.conn.id id).1 (find_id id rows r h) in
      let idle : incumbent id workspace_id r ≡ false = ground arith in
      ap seen_option (
        second
        ∙ ap (changed (promotes id workspace_id now))
            (first ∙ ap (changed (retires id workspace_id now)) h))
      ∙ rw (idle, same, was_draft) refl

-- The workspace is the stored one of its public id and is not archived, and the stored connection of
-- the other public id was in it as a draft that a verification of the last hour found healthy;
-- afterwards it is in service, and no other connection of the workspace is.
abbrev pub Activated : Env → Text → Text → Session → Session → Type 0
Activated env workspace_public connection_public s t =
    (ws : Workspace) × (d : Connection) × Named workspace_public s.db ws
    × (is_archived ws ≡ false)
    × (parse connection_prefix connection_public ≡ parsed d.id)
    × (conn_of (find (row_has_id d.id) s.db.connections) ≡ some d)
    × (d.workspace_id ≡ ws.id)
    × (is_draft d.status ≡ true)
    × (is_verified env.now d ≡ true)
    × (view d.id t.db.connections ≡ some (ws.id, active))
    × (any (incumbent d.id ws.id) t.db.connections ≡ false)

-- When `Activate` succeeds, in any session: the public ids parse, the workspace stored under the one
-- is not archived, and the connection stored under the other was in that workspace as a draft that a
-- verification of the last hour found healthy; afterwards that connection is in service, and no other
-- one of the workspace is.
pub activate_connection-Verified :
    (env : Env) (workspace_public connection_public : Text) (ev : Event) (s t : Session)
    (c : Connection)
    → activate_connection env workspace_public connection_public ev s ≡ (ok c, t)
    → Activated env workspace_public connection_public s t
activate_connection-Verified env workspace_public connection_public ev s t c h =
    let (ws, d, public, named, row, live, own, ready, rows, _) =
      activate-outcome env workspace_public connection_public ev s t c h in
    let (was_draft, verified) = can_activate-eq-ok env.now d ready in
    let (r, by_id, r_is_d) = found-row (find (row_has_id d.id) s.db.connections) d row in
    let serving =
      in_service d.id d.workspace_id env.now s.db.connections r by_id
        (ap (λ x. is_draft x.status) r_is_d ∙ was_draft) in
    (
      ws,
      d,
      named,
      live,
      public,
      row,
      own,
      was_draft,
      verified,
      ap (view d.id) rows
          ∙ serving
          ∙ ap (λ x. some (x.workspace_id, active)) r_is_d
          ∙ ap (λ x. some (x, active)) own,
      ap (any (incumbent d.id ws.id)) rows
          ∙ subst
              (λ w.
                any (incumbent d.id w) (activated_rows d.id d.workspace_id env.now s.db.connections)
                ≡ false)
              own (no_incumbent d.id d.workspace_id env.now s.db.connections),
    )
