-- ===== src/Workspace/Service/Effects.antt =====
-- What the transactions of the workspace service write when they succeed.
use mathlib.Core.Path.{subst}
use lightweight_saas_backend.Prelude.{
  Bool, List, Option, [], any, ap, arith, false, find, if◌then◌else◌, none, refl, some, sym, true,
  ℕ, ◌++◌, ◌∙◌, ◌∷◌, ◌≡◌,
}
use lightweight_saas_backend.Audit.{Event}
use lightweight_saas_backend.Store.{
  M, Session, Writer, later_faults, lift, ok, pure, record_tx, ◌>>◌,
}
use lightweight_saas_backend.Store.Laws.{
  >>=-eq-ok, in_tx-eq-ok, lift-eq-ok, query-eq-ok, record_tx-eq-ok, savepoint-eq-ok,
  statement-eq-ok,
}
use lightweight_saas_backend.Text.{Text}
use lightweight_saas_backend.Workspace.Model.{Workspace, is_active_status}
use lightweight_saas_backend.Workspace.Repository.{
  Error, archive, collides, create, driver, get_by_id, guarded, has_id, insert_row, not_recorded,
  put_away, renamed, renamed_row, set_workspaces, update_name, update_rows, update_where,
}
use lightweight_saas_backend.Workspace.Service.{Env, about, insert_recorded, present, recorded}

-- The row as a guarded UPDATE leaves it.
abbrev pub touched : (Workspace → Workspace) → Workspace → Workspace
touched f w = if is_active_status w.status then f w else w

abbrev pub touched_row : (Workspace → Workspace) → Option Workspace → Option Workspace
touched_row f none = none
touched_row f (some w) = some (touched f w)

pub find-update_where :
    (id : Text) (f : Workspace → Workspace) (ws : List Workspace)
    → ((w : Workspace) → (f w).id ≡ w.id)
    → find (has_id id) (update_where (guarded id) f ws) ≡ touched_row f (find (has_id id) ws)
unfolding update_where
find-update_where id f [] keeps = refl
find-update_where id f (w ∷ ws) keeps = ground (arith, keeps w, find-update_where id f ws keeps)

any-guarded :
    (id : Text) (ws : List Workspace) (w : Workspace)
    → any (guarded id) ws ≡ false
    → find (has_id id) ws ≡ some w
    → is_active_status w.status ≡ false
any-guarded id [] w none_affected e = cc
any-guarded id (v ∷ ws) w none_affected e = ground (arith, any-guarded id ws w)

create-eq-ok :
    (w : Workspace) (s t : Session)
    → create w s ≡ (ok tt, t)
    → (any (collides w) s.db.workspaces ≡ false)
      × (t.db ≡ set_workspaces s.db (s.db.workspaces ++ w ∷ []))
unfolding create insert_row
create-eq-ok w s t h =
    let k = statement-eq-ok driver (insert_row w) s t tt h in (ground arith, ground arith)

update_rows-eq-ok :
    (id : Text) (f : Workspace → Workspace) (s t : Session) (affected : Bool)
    → update_rows id f s ≡ (ok affected, t)
    → (affected ≡ any (guarded id) s.db.workspaces)
      × (t.db ≡ set_workspaces s.db (update_where (guarded id) f s.db.workspaces))
unfolding update_rows
update_rows-eq-ok id f s t affected h =
    let k =
      statement-eq-ok driver
        (λ db. ok (
          any (guarded id) db.workspaces,
          set_workspaces db (update_where (guarded id) f db.workspaces),
        ))
        s t affected h in
    (ground arith, ground arith)

get_by_id-eq-ok :
    (id : Text) (s t : Session) (row : Option Workspace)
    → get_by_id id s ≡ (ok row, t)
    → (find (has_id id) s.db.workspaces ≡ row) × (t.db ≡ s.db)
unfolding get_by_id
get_by_id-eq-ok id s t row h = query-eq-ok driver (λ db. find (has_id id) db.workspaces) s t row h

-- A mutation of a row: what `archive` and `update_name` have in common.
abbrev pub Updates : Text → (Workspace → Workspace) → Session → Session → Option Workspace → Type 0
Updates id f s t row =
    (row ≡ touched_row f (find (has_id id) s.db.workspaces))
    × (t.db ≡ set_workspaces s.db (update_where (guarded id) f s.db.workspaces))

pub archive-Updates :
    (id : Text) (now : ℕ) (s t : Session) (row : Option Workspace)
    → archive id now s ≡ (ok row, t)
    → Updates id (put_away now) s t row
unfolding archive
archive-Updates id now s t row h =
    let inner = savepoint-eq-ok driver _ s t row h in
    let (affected, u, updated, read) = >>=-eq-ok (update_rows id (put_away now)) _ _ t row inner in
    let (_, after) = update_rows-eq-ok id (put_away now) _ u affected updated in
    let (found_row, same) = get_by_id-eq-ok id u t row read in
    let result = find-update_where id (put_away now) s.db.workspaces (λ w. refl) in
    (cc (found_row, result, ap (λ db. find (has_id id) db.workspaces) after), same ∙ after)

renamed_row-eq-ok :
    (affected : Bool) (current row : Option Workspace)
    → renamed_row affected current ≡ ok row
    → current ≡ row
unfolding renamed_row
renamed_row-eq-ok affected none row h = ground arith
renamed_row-eq-ok affected (some w) row h = ground arith

-- What a rename did, and the answer that it took its result from.
pub update_name-eq-ok :
    (id name : Text) (now : ℕ) (s t : Session) (row : Option Workspace)
    → update_name id name now s ≡ (ok row, t)
    → Updates id (renamed name now) s t row
      × (renamed_row
            (any (guarded id) s.db.workspaces)
            (touched_row (renamed name now) (find (has_id id) s.db.workspaces))
          ≡ ok row)
unfolding update_name
update_name-eq-ok id name now s t row h =
    let f = renamed name now in
    let inner = savepoint-eq-ok driver _ s t row h in
    let (affected, u, updated, rest) = >>=-eq-ok (update_rows id f) _ _ t row inner in
    let (current, v, read, decided) = >>=-eq-ok (get_by_id id) _ u t row rest in
    let (told, end) = lift-eq-ok (renamed_row affected current) v t row decided in
    let (is_affected, after) = update_rows-eq-ok id f _ u affected updated in
    let (found_row, same) = get_by_id-eq-ok id u v current read in
    let result = find-update_where id f s.db.workspaces (λ w. refl) in
    let stored : touched_row f (find (has_id id) s.db.workspaces) ≡ current =
      cc (found_row, result, ap (λ db. find (has_id id) db.workspaces) after) in
    (
      (
        cc (stored, renamed_row-eq-ok affected current row told),
        ap (λ x. x.db) end ∙ (same ∙ after),
      ),
      ap (λ b. renamed_row b (touched_row f (find (has_id id) s.db.workspaces))) (sym is_affected)
          ∙ ap (renamed_row affected) stored
          ∙ told,
    )

pub update_name-Updates :
    (id name : Text) (now : ℕ) (s t : Session) (row : Option Workspace)
    → update_name id name now s ≡ (ok row, t)
    → Updates id (renamed name now) s t row
update_name-Updates id name now s t row h = (update_name-eq-ok id name now s t row h).0

pub present-eq-ok : (row : Option Workspace) (w : Workspace) → present row ≡ ok w → row ≡ some w
unfolding present
present-eq-ok none w h = cc
present-eq-ok (some v) w h = ground arith

-- The end of a transaction: the event about the row, and the row.
recorded_end :
    (writer : Writer) (v w : Workspace) (ev : Event) (u z : Session)
    → (record_tx not_recorded writer (about v ev) >> pure {E = Error} v) u ≡ (ok w, z)
    → (v ≡ w)
      × (writer (about w ev) ≡ true)
      × (z.db ≡ record u.db { audit = u.db.audit ++ about w ev ∷ [] })
recorded_end writer v w ev u z h =
    let (_, y, wrote, end) =
      >>=-eq-ok (record_tx not_recorded writer (about v ev)) (λ _. pure {E = Error} v) u z w h in
    let same : v ≡ w = ground arith in
    let (accepted, after) = record_tx-eq-ok not_recorded writer (about v ev) u y wrote in
    let ends : y ≡ z = ground arith in
    (
      same,
      subst (λ x. writer (about x ev) ≡ true) same accepted,
      ap (λ x. x.db) (sym ends)
          ∙ subst (λ x. y.db ≡ record u.db { audit = u.db.audit ++ about x ev ∷ [] }) same after,
    )

-- A recorded mutation that succeeds: the mutation succeeded, its row is returned, and the event about
-- it is the one that was added.
pub recorded-eq-ok :
    (env : Env) (mutation : M Error (Option Workspace)) (ev : Event) (s t : Session) (w : Workspace)
    → recorded env mutation ev s ≡ (ok w, t)
    → (u : Session) × (mutation (record s { faults = later_faults s.faults }) ≡ (ok (some w), u))
      × (env.writer (about w ev) ≡ true)
      × (t.db ≡ record u.db { audit = u.db.audit ++ about w ev ∷ [] })
unfolding recorded
recorded-eq-ok env mutation ev s t w h =
    let (z, inner, committed) = in_tx-eq-ok driver _ s t w h in
    let (row, u, mutated, rest) = >>=-eq-ok mutation _ _ z w inner in
    let (v, u', was, rest') = >>=-eq-ok (lift (present row)) _ u z w rest in
    let (shown, same) = lift-eq-ok (present row) u u' v was in
    let (returned, accepted, after) = recorded_end env.writer v w ev u' z rest' in
    (
      u,
      mutated ∙ ap (λ x. (ok x, u)) (present-eq-ok row v shown ∙ ap some returned),
      accepted,
      sym committed
          ∙ subst (λ x. z.db ≡ record x.db { audit = x.db.audit ++ about w ev ∷ [] }) same after,
    )

-- A workspace that is created: nothing collides with it, and it is added with the event about it.
pub insert_recorded-eq-ok :
    (env : Env) (w v : Workspace) (ev : Event) (s t : Session)
    → insert_recorded env w ev s ≡ (ok v, t)
    → (w ≡ v)
      × (any (collides w) s.db.workspaces ≡ false)
      × (env.writer (about v ev) ≡ true)
      × (t.db ≡ record s.db {
        workspaces = s.db.workspaces ++ w ∷ [];
        audit = s.db.audit ++ about v ev ∷ [];
      })
unfolding insert_recorded
insert_recorded-eq-ok env w v ev s t h =
    let (z, inner, committed) = in_tx-eq-ok driver _ s t v h in
    let (_, u, created, rest) = >>=-eq-ok (create w) _ _ z v inner in
    let (free, after) = create-eq-ok w _ u created in
    let (returned, accepted, end) = recorded_end env.writer w v ev u z rest in
    (
      returned,
      free,
      accepted,
      sym committed ∙ subst (λ x. z.db ≡ record x { audit = x.audit ++ about v ev ∷ [] }) after end,
    )
