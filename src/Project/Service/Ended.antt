-- ===== src/Project/Service/Ended.antt =====
-- What a success of `Archive` leaves in the tables.
use mathlib.Core.Path.{subst}
use lightweight_saas_backend.Prelude.{
  All, Bool-cases, List, Option, [], ap, arith, false, find, inl, inr, refl, some, sym, true, ℕ,
  ◌++◌, ◌∙◌, ◌∷◌, ◌≡◌,
}
use lightweight_saas_backend.Audit.{Event}
use lightweight_saas_backend.Project.Model.{Project}
use lightweight_saas_backend.Project.Repository.{
  Error, archive_project, driver, freeze_rows, frozen, get_project, not_found, not_recorded,
  project_guarded, project_has_id, set_projects, update_where,
}
use lightweight_saas_backend.Project.Service.{
  Env, about_project, archive, recorded_project, required, resolve, to_internal,
}
use lightweight_saas_backend.Project.Service.Laws.{Resolved, required-eq-ok, resolve-eq-ok}
use lightweight_saas_backend.Store.{M, Session, later_faults, masking, ok, record_tx}
use lightweight_saas_backend.Store.Laws.{
  >>=-eq-ok, in_tx-eq-ok, lift->>=-eq-ok, query-eq-ok, record_tx-eq-ok, savepoint-eq-ok,
  statement-eq-ok,
}
use lightweight_saas_backend.Store.Reads.{masking-eq-ok}
use lightweight_saas_backend.Text.{Text, text_eq}
use lightweight_saas_backend.Workspace.Model.{is_active_status}

abbrev pub AllArchived : Text → List Project → Type 0
AllArchived id = All (λ p. text_eq p.id id ≡ true → is_active_status p.status ≡ false)

frozen-AllArchived :
    (id : Text) (now : ℕ) (ps : List Project)
    → AllArchived id (update_where (project_guarded id) (frozen now) ps)
frozen-AllArchived id now [] = tt
frozen-AllArchived id now (p ∷ ps) = (
  elim (Bool-cases (project_guarded id p)) [
    | inl hit ↦ rw hit (λ e. refl)
    | inr miss ↦ rw miss (λ e. ground arith)
  ],
  frozen-AllArchived id now ps,
)

archive_project-eq-ok :
    (id : Text) (now : ℕ) (s t : Session) (row : Option Project)
    → archive_project id now s ≡ (ok row, t)
    → (row ≡ find (project_has_id id) t.db.projects)
      × (t.db ≡ set_projects s.db (update_where (project_guarded id) (frozen now) s.db.projects))
unfolding archive_project freeze_rows get_project
archive_project-eq-ok id now s t row h =
    let begun = record s { faults = later_faults s.faults } in
    let inner = savepoint-eq-ok driver _ s t row h in
    let (_, u, updated, read) = >>=-eq-ok (freeze_rows id now) _ begun t row inner in
    let wrote =
      statement-eq-ok driver
        (λ db.
          ok (tt, set_projects db (update_where (project_guarded id) (frozen now) db.projects)))
        begun u tt updated in
    let (told, same) =
      query-eq-ok driver (λ db. find (project_has_id id) db.projects) u t row read in
    (sym told ∙ ap (λ db. find (project_has_id id) db.projects) (sym same), same ∙ ground arith)

recorded_project-eq-ok :
    (env : Env) (mutation : M Error (Option Project)) (ev : Event) (s t : Session) (p : Project)
    → recorded_project env mutation ev s ≡ (ok p, t)
    → (u : Session) × (mutation (record s { faults = later_faults s.faults }) ≡ (ok (some p), u))
      × (env.writer (about_project p ev) ≡ true)
      × (t.db ≡ record u.db { audit = u.db.audit ++ about_project p ev ∷ [] })
unfolding recorded_project
recorded_project-eq-ok env mutation ev s t p h =
    let begun = record s { faults = later_faults s.faults } in
    let (z, inner, same) = in_tx-eq-ok driver _ s t p h in
    let (row, u, mutated, rest) = >>=-eq-ok mutation _ begun z p inner in
    let (q, told, rest2) = lift->>=-eq-ok (required not_found row) _ u z p rest in
    let (_, w, wrote, last) =
      >>=-eq-ok (record_tx not_recorded env.writer (about_project q ev)) _ u z p rest2 in
    let (accepted, after) =
      record_tx-eq-ok not_recorded env.writer (about_project q ev) u w wrote in
    let q_is_p : q ≡ p = ground arith in
    let w_is_z : w ≡ z = ground arith in
    let is_p : row ≡ some p = required-eq-ok not_found row q told ∙ ap some q_is_p in
    (
      u,
      mutated ∙ (λ i. (ok (is_p i), u)),
      subst (λ x. env.writer (about_project x ev) ≡ true) q_is_p accepted,
      sym same
          ∙ ap (λ x. x.db) (sym w_is_z)
          ∙ subst (λ x. w.db ≡ record u.db { audit = u.db.audit ++ about_project x ev ∷ [] }) q_is_p
              after,
    )

archived_by-eq-ok :
    (env : Env) (id : Text) (ev : Event) (s t : Session) (p : Project)
    → recorded_project env (masking to_internal (archive_project id env.now)) ev s ≡ (ok p, t)
    → (find (project_has_id id) t.db.projects ≡ some p) × AllArchived id t.db.projects
archived_by-eq-ok env id ev s t p h =
    let mutation = masking to_internal (archive_project id env.now) in
    let begun = record s { faults = later_faults s.faults } in
    let (u, mutated, accepted, after) = recorded_project-eq-ok env mutation ev s t p h in
    let (row, wrote) =
      archive_project-eq-ok id env.now begun u (some p)
        (masking-eq-ok to_internal (archive_project id env.now) begun u (some p) mutated) in
    let same : t.db.projects ≡ u.db.projects = ap (λ db. db.projects) after in
    (
      ap (find (project_has_id id)) same ∙ sym row,
      subst (AllArchived id) (sym (same ∙ ap (λ db. db.projects) wrote))
          (frozen-AllArchived id env.now s.db.projects),
    )

-- After a success of `Archive`: the row that was returned is that of the project resolved, and every
-- row of its id is archived.
pub archive-eq-ok :
    (env : Env) (workspace_public project_public : Text) (ev : Event) (s t : Session) (p : Project)
    → archive env workspace_public project_public ev s ≡ (ok p, t)
    → (q : Project) × Resolved workspace_public project_public s.db q
      × (find (project_has_id q.id) t.db.projects ≡ some p)
      × AllArchived q.id t.db.projects
unfolding archive
archive-eq-ok env workspace_public project_public ev s t p h =
    let (q, u, found_q, rest) = >>=-eq-ok (resolve workspace_public project_public) _ s t p h in
    let (resolved, same) = resolve-eq-ok workspace_public project_public s u q found_q in
    let (is_p, ended) = archived_by-eq-ok env q.id ev u t p rest in (q, resolved, is_p, ended)
