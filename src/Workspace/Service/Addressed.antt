-- ===== src/Workspace/Service/Addressed.antt =====
-- Which row of the table a mutation of the workspace service changes, and which fields of it.
use lightweight_saas_backend.Prelude.{
  Bool-cases, List, Option, [], any, ap, arith, false, find, if◌then◌else◌, inl, inr, refl, some,
  sym, true, ℕ, ◌++◌, ◌∙◌, ◌∷◌, ◌≡◌, ◌⊎◌,
}
use lightweight_saas_backend.Audit.{Event}
use lightweight_saas_backend.PublicId.{parse, parsed, workspace_prefix}
use lightweight_saas_backend.Store.{Session, ok}
use lightweight_saas_backend.Store.Laws.{lift->>=-eq-ok}
use lightweight_saas_backend.Text.{Text, trim_space}
use lightweight_saas_backend.Workspace.Model.{Status, Workspace, active, archived, is_active_status}
use lightweight_saas_backend.Workspace.Repository.{
  guarded, has_id, put_away, renamed, renamed_row, update_name,
}
use lightweight_saas_backend.Workspace.Service.{
  Env, about, archive_workspace, rename_workspace, resolve_id, valid_name,
}
use lightweight_saas_backend.Workspace.Service.Effects.{
  recorded-eq-ok, touched, touched_row, update_name-eq-ok,
}
use lightweight_saas_backend.Workspace.Service.Invariant.{Distinct}
use lightweight_saas_backend.Workspace.Service.Laws.{
  Changed, IsName, archive_workspace-Changed, rename_workspace-Changed, resolve_id-eq-ok,
}
use lightweight_saas_backend.Workspace.Service.Located.{update_where-split}
use lightweight_saas_backend.Workspace.Slug.{normalize_name}

-- One row was replaced in its place, the one that the public id names, and the event about it was
-- added; every other row, and all else, is as it was.
pub record Replaced (public : Text) (ev : Event) (s t : Session) (row w : Workspace) : Type 0 where
  pub named : parse workspace_prefix public ≡ parsed row.id
  pub before : List Workspace
  pub rest : List Workspace
  pub was : s.db.workspaces ≡ before ++ row ∷ rest
  pub written :
      t.db ≡ record s.db { workspaces = before ++ w ∷ rest; audit = s.db.audit ++ about w ev ∷ [] }

Changed-Replaced :
    (public : Text) (f : Workspace → Workspace) (ev : Event) (s t : Session) (w : Workspace)
    → Distinct s.db.workspaces
    → (c : Changed public f ev s t w) → Replaced public ev s t c.row w
Changed-Replaced public f ev s t w distinct c =
    let (before, rest, split, updated, _, same) =
      update_where-split c.id f s.db.workspaces c.row distinct c.was in
    record {
      named = c.named ∙ ap parsed (sym same);
      before = before;
      rest = rest;
      was = split;
      written =
          c.written
          ∙ ap (λ ws. record s.db { workspaces = ws; audit = s.db.audit ++ about w ev ∷ [] })
              (updated ∙ ap (λ x. before ++ x ∷ rest) (sym c.returned));
    }

renamed_row-active :
    (name : Text) (now : ℕ) (row : Workspace) (answer : Option Workspace)
    → renamed_row (is_active_status row.status) (some (touched (renamed name now) row)) ≡ ok answer
    → is_active_status row.status ≡ true
unfolding renamed_row
renamed_row-active name now row answer h = elim (Bool-cases (is_active_status row.status)) [
  | inl active_row ↦ active_row
  | inr ended ↦ absurd (ground (arith, ended, h))
]

parsed-injective : {a b : Text} → parsed a ≡ parsed b → a ≡ b
parsed-injective h = ground arith

-- The refusal of an archived row, where a rename succeeds.
rename_workspace-active :
    (env : Env) (public raw_name id : Text) (ev : Event) (s t : Session) (w row : Workspace)
    → rename_workspace env public raw_name ev s ≡ (ok w, t)
    → Distinct s.db.workspaces
    → parse workspace_prefix public ≡ parsed id
    → find (has_id id) s.db.workspaces ≡ some row
    → is_active_status row.status ≡ true
unfolding rename_workspace
rename_workspace-active env public raw_name id ev s t w row h distinct named was =
    let (id', was_id, h1) = lift->>=-eq-ok (resolve_id public) _ s t w h in
    let (name, _, h2) = lift->>=-eq-ok (valid_name (normalize_name raw_name)) _ s t w h1 in
    let id_is : id' ≡ id = parsed-injective (sym (resolve_id-eq-ok public id' was_id) ∙ named) in
    let (u, mutated, _, _) = recorded-eq-ok env (update_name id' name env.now) ev s t w h2 in
    let (_, decided) = update_name-eq-ok id' name env.now _ u (some w) mutated in
    let (_, _, _, _, affected, _) =
      update_where-split id (renamed name env.now) s.db.workspaces row distinct was in
    renamed_row-active name env.now row (some w) (
      ap (λ b. renamed_row b (touched_row (renamed name env.now) (some row))) (sym affected)
      ∙ ap
          (λ o.
            renamed_row (any (guarded id) s.db.workspaces) (touched_row (renamed name env.now) o))
          (sym was)
      ∙ ap
          (λ i.
            renamed_row (any (guarded i) s.db.workspaces)
              (touched_row (renamed name env.now) (find (has_id i) s.db.workspaces)))
          (sym id_is)
      ∙ decided)

active-status : (st : Status) → is_active_status st ≡ true → st ≡ active
active-status active h = refl
active-status archived h = absurd (ground arith)

archived-status : (st : Status) → is_active_status st ≡ false → st ≡ archived
archived-status active h = absurd (ground arith)
archived-status archived h = refl

touched_active :
    (f : Workspace → Workspace) (w : Workspace)
    → is_active_status w.status ≡ true
    → touched f w ≡ f w
touched_active f w h = ap (λ b. if b then f w else w) h

touched_idle :
    (f : Workspace → Workspace) (w : Workspace)
    → is_active_status w.status ≡ false
    → touched f w ≡ w
touched_idle f w h = ap (λ b. if b then f w else w) h

-- When a rename succeeds on a table in which ids and slugs are distinct: the trimmed name is valid, the row that
-- the public id names was active, and it alone is replaced, in its place, by itself with that name
-- and the time of the change; the event about it is added, and all else is as it was.
pub rename_workspace-Replaced :
    (env : Env) (public raw_name : Text) (ev : Event) (s t : Session) (w : Workspace)
    → Distinct s.db.workspaces
    → rename_workspace env public raw_name ev s ≡ (ok w, t)
    → IsName (trim_space raw_name)
      × (row : Workspace) × Replaced public ev s t row w
      × (row.status ≡ active)
      × (w ≡ record row { name = trim_space raw_name; updated_at = env.now })
rename_workspace-Replaced env public raw_name ev s t w distinct h =
    let (is_name, c) = rename_workspace-Changed env public raw_name ev s t w h in
    let was_active =
      rename_workspace-active env public raw_name c.id ev s t w c.row h distinct c.named c.was in
    (
      is_name,
      c.row,
      Changed-Replaced public (renamed (trim_space raw_name) env.now) ev s t w distinct c,
      active-status c.row.status was_active,
      c.returned ∙ touched_active (renamed (trim_space raw_name) env.now) c.row was_active,
    )

-- When archiving succeeds on a table in which ids and slugs are distinct: the row that the public id names alone
-- is replaced, in its place: by itself archived at the time of the change, if it was active, and
-- by itself as it was, times included, if it was archived before; the event about it is added, and
-- all else is as it was.
pub archive_workspace-Replaced :
    (env : Env) (public : Text) (ev : Event) (s t : Session) (w : Workspace)
    → Distinct s.db.workspaces
    → archive_workspace env public ev s ≡ (ok w, t)
    → (row : Workspace) × Replaced public ev s t row w
      × (((row.status ≡ active)
            × (w ≡ record row {
              status = archived;
              archived_at = some env.now;
              updated_at = env.now;
            }))
          ⊎ ((row.status ≡ archived) × (w ≡ row)))
archive_workspace-Replaced env public ev s t w distinct h =
    let (_, c) = archive_workspace-Changed env public ev s t w h in
    (
      c.row,
      Changed-Replaced public (put_away env.now) ev s t w distinct c,
      elim (Bool-cases (is_active_status c.row.status)) [
        | inl live ↦ inl (
          active-status c.row.status live,
          c.returned ∙ touched_active (put_away env.now) c.row live,
        )
        | inr ended ↦ inr (
          archived-status c.row.status ended,
          c.returned ∙ touched_idle (put_away env.now) c.row ended,
        )
      ],
    )
