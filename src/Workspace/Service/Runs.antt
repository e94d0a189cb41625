-- ===== src/Workspace/Service/Runs.antt =====
-- What the workspace service answers where no statement fails.
use lightweight_saas_backend.Prelude.{
  Bool-cases, List, Option, [], ap, arith, find, inl, inr, refl, some, true, ℕ, ◌++◌, ◌∙◌, ◌∷◌, ◌≡◌,
}
use lightweight_saas_backend.Audit.{Event}
use lightweight_saas_backend.PublicId.{parse, parsed, workspace_prefix}
use lightweight_saas_backend.Store.{
  Db, M, Session, in_tx, lift, ok, query, record_tx, savepoint, statement, ◌>>=◌,
}
use lightweight_saas_backend.Text.{Text, trim_space}
use lightweight_saas_backend.Text.Laws.{text_ne}
use lightweight_saas_backend.Workspace.Model.{Workspace, is_active_status}
use lightweight_saas_backend.Workspace.Repository.{
  Error, archive, get_by_id, guarded, has_id, put_away, set_workspaces, update_name, update_rows,
  update_where,
}
use lightweight_saas_backend.Workspace.Service.{
  Env, about, archive_workspace, present, recorded, rename_workspace, resolve_id, valid_name,
}
use lightweight_saas_backend.Workspace.Service.Effects.{find-update_where, touched, touched_row}
use lightweight_saas_backend.Workspace.Service.Laws.{IsName}
use lightweight_saas_backend.Workspace.Slug.{normalize_name}

-- A session in which every statement succeeds.
abbrev pub sound : Db → Session
sound db = record { db = db; faults = [] }

-- The tables after a recorded change of one row.
abbrev pub changed : Text → (Workspace → Workspace) → Workspace → Event → Db → Db
changed id f w ev db = record db {
  workspaces = update_where (guarded id) f db.workspaces;
  audit = db.audit ++ about w ev ∷ [];
}

archive_runs :
    (id : Text) (now : ℕ) (db : Db)
    → archive id now (sound db) ≡ (
      ok (touched_row (put_away now) (find (has_id id) db.workspaces)),
      sound (set_workspaces db (update_where (guarded id) (put_away now) db.workspaces)),
    )
unfolding archive savepoint update_rows get_by_id query statement
archive_runs id now db = rw (find-update_where id (put_away now) db.workspaces (λ w. refl))

recorded_runs :
    (env : Env) (mutation : M Error (Option Workspace)) (ev : Event) (db after : Db) (w : Workspace)
    → mutation (sound db) ≡ (ok (some w), sound after)
    → env.writer (about w ev) ≡ true
    → recorded env mutation ev (sound db)
      ≡ (ok w, sound (record after { audit = after.audit ++ about w ev ∷ [] }))
unfolding recorded in_tx present record_tx statement
recorded_runs env mutation ev db after w h accepted = rw h (rw accepted)

resolve_id_of :
    (public id : Text) → parse workspace_prefix public ≡ parsed id → resolve_id public ≡ ok id
unfolding resolve_id
resolve_id_of public id named = rw (named, resolve_id)

archive_workspace_of_id :
    (env : Env) (public id : Text) (ev : Event) (s : Session)
    → parse workspace_prefix public ≡ parsed id
    → archive_workspace env public ev s ≡ recorded env (archive id env.now) ev s
unfolding archive_workspace
archive_workspace_of_id env public id ev s named =
    ap (λ r. (lift r >>= λ i. recorded env (archive i env.now) ev) s)
      (resolve_id_of public id named)

valid_name_of : (name : Text) → IsName name → valid_name name ≡ ok name
unfolding valid_name
valid_name_of name (ne, short) = rw (text_ne name [] ne) (ground arith)

rename_workspace_of_id :
    (env : Env) (public id raw_name : Text) (ev : Event) (s : Session)
    → parse workspace_prefix public ≡ parsed id
    → IsName (trim_space raw_name)
    → rename_workspace env public raw_name ev s
      ≡ recorded env (update_name id (trim_space raw_name) env.now) ev s
unfolding rename_workspace normalize_name
rename_workspace_of_id env public id raw_name ev s named valid =
    ap
      (λ r.
        (lift r >>= λ i.
        lift (valid_name (trim_space raw_name)) >>= λ n. recorded env (update_name i n env.now) ev)
          s)
      (resolve_id_of public id named)
    ∙ ap (λ r. (lift r >>= λ n. recorded env (update_name id n env.now) ev) s)
        (valid_name_of (trim_space raw_name) valid)

-- Archiving a workspace that exists succeeds where no statement fails: the row is returned as the
-- guarded update leaves it, and the event is recorded.
pub archive_workspace_runs :
    (env : Env) (public id : Text) (ev : Event) (db : Db) (row : Workspace)
    → parse workspace_prefix public ≡ parsed id
    → find (has_id id) db.workspaces ≡ some row
    → ((e : Event) → env.writer e ≡ true)
    → archive_workspace env public ev (sound db) ≡ (
      ok (touched (put_away env.now) row),
      sound (changed id (put_away env.now) (touched (put_away env.now) row) ev db),
    )
archive_workspace_runs env public id ev db row named was accepted =
    archive_workspace_of_id env public id ev (sound db) named
    ∙ (recorded_runs env (archive id env.now) ev db _ (touched (put_away env.now) row)
        (archive_runs id env.now db ∙ rw was) (accepted _))

settled :
    (f : Workspace → Workspace) (now : ℕ) (w : Workspace)
    → touched f (touched (put_away now) w) ≡ touched (put_away now) w
settled f now w = elim (Bool-cases (is_active_status w.status)) [
  | inl e ↦ rw e
  | inr e ↦ rw e (rw e)
]

update_settled :
    (id : Text) (f : Workspace → Workspace) (now : ℕ) (ws : List Workspace)
    → update_where (guarded id) f (update_where (guarded id) (put_away now) ws)
      ≡ update_where (guarded id) (put_away now) ws
unfolding update_where
update_settled id f now [] = refl
update_settled id f now (w ∷ ws) = elim (Bool-cases (guarded id w)) [
  | inl e ↦ rw e (ground (arith, update_settled id f now ws))
  | inr e ↦ rw e (rw e (rw (update_settled id f now ws)))
]

-- Archiving is idempotent: repeated at any later time, it succeeds, returns the row of the first call
-- with the first call's times, and leaves the table of workspaces as it is; one more event is recorded.
pub archive_workspace_twice :
    (env again : Env) (public id : Text) (ev ev' : Event) (db : Db) (row : Workspace)
    → parse workspace_prefix public ≡ parsed id
    → find (has_id id) db.workspaces ≡ some row
    → ((e : Event) → env.writer e ≡ true)
    → ((e : Event) → again.writer e ≡ true)
    → let first = touched (put_away env.now) row in
      let once = changed id (put_away env.now) first ev db in
      (archive_workspace env public ev (sound db) ≡ (ok first, sound once))
      × (archive_workspace again public ev' (sound once)
          ≡ (ok first, sound (record once { audit = once.audit ++ about first ev' ∷ [] })))
archive_workspace_twice env again public id ev ev' db row named was accepted accepted' =
    let first = touched (put_away env.now) row in
    let once = changed id (put_away env.now) first ev db in
    (
      archive_workspace_runs env public id ev db row named was accepted,
      archive_workspace_runs again public id ev' once first named
            (find-update_where id (put_away env.now) db.workspaces (λ w. refl) ∙ rw was) accepted'
          ∙ (λ i.
              let w = settled (put_away again.now) env.now row i in
              let ws = update_settled id (put_away again.now) env.now db.workspaces i in
              (
                ok w,
                sound (record once { workspaces = ws; audit = once.audit ++ about w ev' ∷ [] }),
              )),
    )
