-- ===== src/Workspace/Service/Located.antt =====
-- Where in the table of workspaces a guarded UPDATE of one id takes place.
use mathlib.Core.Path.{subst}
use lightweight_saas_backend.Prelude.{
  Bool-cases, List, [], any, ap, arith, false, find, if◌then◌else◌, inl, inr, refl, some, sym, ◌++◌,
  ◌∙◌, ◌∷◌, ◌≡◌,
}
use lightweight_saas_backend.Text.{Text, text_eq}
use lightweight_saas_backend.Text.Laws.{text_eq_iff}
use lightweight_saas_backend.Workspace.Model.{Workspace, is_active_status}
use lightweight_saas_backend.Workspace.Repository.{collides, guarded, has_id, update_where}
use lightweight_saas_backend.Workspace.Service.Effects.{touched}
use lightweight_saas_backend.Workspace.Service.Invariant.{Distinct}

any-has_id :
    (w : Workspace) (id : Text) (ws : List Workspace)
    → w.id ≡ id
    → any (collides w) ws ≡ false
    → any (has_id id) ws ≡ false
unfolding collides
any-has_id w id [] same free = refl
any-has_id w id (x ∷ ws) same free =
    let here : text_eq x.id w.id ≡ false = ground arith in
    let later : any (collides w) ws ≡ false = ground arith in
    rw (ap (text_eq x.id) (sym same) ∙ here) (any-has_id w id ws same later)

any-guarded_of_none :
    (id : Text) (ws : List Workspace) → any (has_id id) ws ≡ false → any (guarded id) ws ≡ false
any-guarded_of_none id [] h = refl
any-guarded_of_none id (x ∷ ws) h = ground (arith, any-guarded_of_none id ws)

update_where_of_none :
    (id : Text) (f : Workspace → Workspace) (ws : List Workspace)
    → any (has_id id) ws ≡ false
    → update_where (guarded id) f ws ≡ ws
unfolding update_where
update_where_of_none id f [] h = refl
update_where_of_none id f (x ∷ ws) h =
    let here : text_eq x.id id ≡ false = ground arith in
    let later : any (has_id id) ws ≡ false = ground arith in
    rw here (ap (λ xs. x ∷ xs) (update_where_of_none id f ws later))

-- Ids are distinct, so that the statement meets the row that was found and no other.
pub update_where-split :
    (id : Text) (f : Workspace → Workspace) (ws : List Workspace) (row : Workspace)
    → Distinct ws
    → find (has_id id) ws ≡ some row
    → (before : List Workspace) × (rest : List Workspace) × (ws ≡ before ++ row ∷ rest)
      × (update_where (guarded id) f ws ≡ before ++ touched f row ∷ rest)
      × (any (guarded id) ws ≡ is_active_status row.status)
      × (row.id ≡ id)
unfolding update_where
update_where-split id f [] row distinct was = absurd (ground arith)
update_where-split id f (x ∷ ws) row distinct was = elim (Bool-cases (text_eq x.id id)) [
  | inl hit ↦
      let same : x.id ≡ id = (text_eq_iff x.id id).0 hit in
      let alone = any-has_id x id ws same distinct.0 in
      let x_is_row : x ≡ row = ground arith in
      subst
        (λ r.
          (before : List Workspace) × (rest : List Workspace) × (x ∷ ws ≡ before ++ r ∷ rest)
          × ((if guarded id x then f x else x) ∷ update_where (guarded id) f ws
              ≡ before ++ touched f r ∷ rest)
          × (any (guarded id) (x ∷ ws) ≡ is_active_status r.status)
          × (r.id ≡ id))
        x_is_row
        (
          [],
          ws,
          refl,
          rw hit (ap (λ xs. touched f x ∷ xs) (update_where_of_none id f ws alone)),
          rw (hit, any-guarded_of_none id ws alone) (ground arith),
          same,
        )
  | inr miss ↦
      let (before, rest, split, updated, affected, same) =
        update_where-split id f ws row distinct.1 (rw miss at was) in
      (
        x ∷ before,
        rest,
        ap (λ xs. x ∷ xs) split,
        rw miss (ap (λ xs. x ∷ xs) updated),
        rw miss affected,
        same,
      )
]
