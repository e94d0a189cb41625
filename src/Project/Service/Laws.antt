-- ===== src/Project/Service/Laws.antt =====
-- What the successes of the project service read and wrote.
use lightweight_saas_backend.Prelude.{
  Bool-cases, Option, ap, arith, find, inl, inr, none, some, sym, ◌∙◌, ◌≡◌,
}
use lightweight_saas_backend.Project.Model.{Project}
use lightweight_saas_backend.Project.Repository.{
  Error, driver, get_project, invalid_id, invalid_workspace_id, project_has_id, workspace_not_found,
}
use lightweight_saas_backend.Project.Service.{
  owned, parsed_id, require_workspace, required, resolve, to_internal,
}
use lightweight_saas_backend.PublicId.{
  Parsed, parse, parsed, project_prefix, unparsed, workspace_prefix,
}
use lightweight_saas_backend.Store.{Db, Session, masking, ok}
use lightweight_saas_backend.Store.Laws.{>>=-eq-ok, lift->>=-eq-ok, lift-eq-ok, query-eq-ok}
use lightweight_saas_backend.Store.Reads.{masking-eq-ok}
use lightweight_saas_backend.Text.{Text, text_eq}
use lightweight_saas_backend.Text.Laws.{text_eq_iff}
use lightweight_saas_backend.Workspace.Model.{Workspace}
use lightweight_saas_backend.Workspace.Repository.{driver as workspace_driver, get_by_id, has_id}

pub parsed_id-eq-ok : (e : Error) (x : Parsed) (id : Text) → parsed_id e x ≡ ok id → x ≡ parsed id
unfolding parsed_id
parsed_id-eq-ok e (parsed i) id h = ground arith
parsed_id-eq-ok e (unparsed x) id h = absurd (ground arith)

pub required-eq-ok :
    {A : Type 0} (e : Error) (x : Option A) (a : A) → required e x ≡ ok a → x ≡ some a
unfolding required
required-eq-ok e none a h = absurd (ground arith)
required-eq-ok e (some b) a h = ground arith

owned-eq-ok :
    (ws : Workspace) (row : Option Project) (p : Project)
    → owned ws row ≡ ok p
    → (row ≡ some p) × (p.workspace_id ≡ ws.id)
unfolding owned
owned-eq-ok ws none p h = absurd (ground arith)
owned-eq-ok ws (some q) p h = elim (Bool-cases (text_eq q.workspace_id ws.id)) [
  | inl mine ↦
      let same : q ≡ p = ground arith in
      (ap some same, ap (λ x. x.workspace_id) (sym same) ∙ (text_eq_iff _ _).0 mine)
  | inr foreign ↦ absurd (ground arith)
]

module _ (workspace_public : Text) (s t : Session) where
  require_workspace-eq-ok :
      (ws : Workspace)
      → require_workspace workspace_public s ≡ (ok ws, t)
      → (id : Text) × (parse workspace_prefix workspace_public ≡ parsed id)
        × (find (has_id id) s.db.workspaces ≡ some ws)
        × (t.db ≡ s.db)
  unfolding require_workspace get_by_id
  require_workspace-eq-ok ws h =
      let (id, identified, rest) =
        lift->>=-eq-ok (parsed_id invalid_workspace_id (parse workspace_prefix workspace_public)) _
          s t ws h in
      let (row, u, masked, last) = >>=-eq-ok (masking to_internal (get_by_id id)) _ s t ws rest in
      let (told, same) =
        query-eq-ok workspace_driver (λ db. find (has_id id) db.workspaces) s u row
          (masking-eq-ok to_internal (get_by_id id) s u row masked) in
      let (here, end) = lift-eq-ok (required workspace_not_found row) u t ws last in
      (
        id,
        parsed_id-eq-ok invalid_workspace_id (parse workspace_prefix workspace_public) id
            identified,
        told ∙ required-eq-ok workspace_not_found row ws here,
        ap (λ v. v.db) end ∙ same,
      )

-- What `resolve` made sure of.
pub record Resolved (workspace_public project_public : Text) (db : Db) (p : Project) : Type 0 where
  pub workspace_id : Text
  pub project_id : Text
  pub ws : Workspace
  pub workspace_parsed : parse workspace_prefix workspace_public ≡ parsed workspace_id
  pub workspace_found : find (has_id workspace_id) db.workspaces ≡ some ws
  pub project_parsed : parse project_prefix project_public ≡ parsed project_id
  pub project_found : find (project_has_id project_id) db.projects ≡ some p
  pub owner : p.workspace_id ≡ ws.id

pub resolve-eq-ok :
    (workspace_public project_public : Text) (s t : Session) (p : Project)
    → resolve workspace_public project_public s ≡ (ok p, t)
    → Resolved workspace_public project_public s.db p × (t.db ≡ s.db)
unfolding resolve get_project
resolve-eq-ok workspace_public project_public s t p h =
    let (ws, u, required_ws, rest) = >>=-eq-ok (require_workspace workspace_public) _ s t p h in
    let (wid, wparsed, wfound, same) =
      require_workspace-eq-ok workspace_public s u ws required_ws in
    let (id, identified, rest2) =
      lift->>=-eq-ok (parsed_id invalid_id (parse project_prefix project_public)) _ u t p rest in
    let (row, v, masked, last) = >>=-eq-ok (masking to_internal (get_project id)) _ u t p rest2 in
    let (told, same2) =
      query-eq-ok driver (λ db. find (project_has_id id) db.projects) u v row
        (masking-eq-ok to_internal (get_project id) u v row masked) in
    let (mine, end) = lift-eq-ok (owned ws row) v t p last in
    let (row_eq, owner) = owned-eq-ok ws row p mine in
    (
      record {
        workspace_id = wid;
        project_id = id;
        ws = ws;
        workspace_parsed = wparsed;
        workspace_found = wfound;
        project_parsed =
            parsed_id-eq-ok invalid_id (parse project_prefix project_public) id identified;
        project_found = ap (λ db. find (project_has_id id) db.projects) (sym same) ∙ told ∙ row_eq;
        owner = owner;
      },
      ap (λ v. v.db) end ∙ same2 ∙ same,
    )
