-- ===== src/Workspace/Service/Invariant.antt =====
-- What holds of the table of workspaces between two requests.
use mathlib.Core.Path.{subst}
use lightweight_saas_backend.Prelude.{
  All, All-append, Bool, Bool-cases, List, Option, [], any, arith, false, if◌then◌else◌, inl, inr,
  none, refl, some, sym, true, ℕ, ◌++◌, ◌||◌, ◌∙◌, ◌∷◌, ◌≡◌,
}
use lightweight_saas_backend.Audit.{Event}
use lightweight_saas_backend.Store.{Db, Session}
use lightweight_saas_backend.Store.Laws.{IsAtomic-keeps}
use lightweight_saas_backend.Text.{Text, text_eq, trim_space}
use lightweight_saas_backend.Text.Laws.{text_eq_iff}
use lightweight_saas_backend.Workspace.Model.{Workspace, active, archived}
use lightweight_saas_backend.Workspace.Repository.{
  collides, guarded, put_away, renamed, update_where,
}
use lightweight_saas_backend.Workspace.Service.{
  Env, archive_workspace, create_workspace, rename_workspace,
}
use lightweight_saas_backend.Workspace.Service.Laws.{
  Changed, Created, archive_workspace-Changed, create_workspace-Created, mutations-IsAtomic,
  rename_workspace-Changed,
}

abbrev pub is_dated : Option ℕ → Bool
is_dated none = false
is_dated (some _) = true

-- The state and the date of archiving agree (workspaces_archived_at_check).
abbrev pub IsDated : Workspace → Type 0
IsDated w =
    (w.status ≡ active → w.archived_at ≡ none)
    × (w.status ≡ archived → is_dated w.archived_at ≡ true)

-- No two rows share an id or a slug.
abbrev pub Distinct : List Workspace → Type 0
Distinct [] = Unit
Distinct (w ∷ ws) = (any (collides w) ws ≡ false) × Distinct ws

abbrev pub IsValid : Db → Type 0
IsValid db = Distinct db.workspaces × All IsDated db.workspaces

text_eq_comm : (s t : Text) → text_eq s t ≡ text_eq t s
text_eq_comm s t = ground (arith, text_eq_iff s t, text_eq_iff t s)

collides_comm : (v w : Workspace) → collides v w ≡ collides w v
unfolding collides
collides_comm v w = ground (arith, text_eq_comm v.id w.id, text_eq_comm v.slug w.slug)

any-collides_append :
    (v w : Workspace) (ws : List Workspace)
    → any (collides v) (ws ++ w ∷ []) ≡ (any (collides v) ws || collides v w)
any-collides_append v w [] = ground arith
any-collides_append v w (x ∷ ws) = ground (arith, any-collides_append v w ws)

Distinct-append :
    (ws : List Workspace) (w : Workspace)
    → Distinct ws
    → any (collides w) ws ≡ false
    → Distinct (ws ++ w ∷ [])
Distinct-append [] w h free = (refl, tt)
Distinct-append (v ∷ ws) w h free = (
  ground (arith, any-collides_append v w ws, collides_comm v w),
  Distinct-append ws w h.1 (ground arith),
)

module _ (p : Workspace → Bool) (f : Workspace → Workspace)
    (keeps_id : (w : Workspace) → (f w).id ≡ w.id)
    (keeps_slug : (w : Workspace) → (f w).slug ≡ w.slug) where
  collides_update : (v w : Workspace) → collides v (if p w then f w else w) ≡ collides v w
  unfolding collides
  collides_update v w = ground (arith, keeps_id w, keeps_slug w)

  any-collides_update :
      (v : Workspace) (ws : List Workspace)
      → any (collides v) (update_where p f ws) ≡ any (collides v) ws
  unfolding update_where
  any-collides_update v [] = refl
  any-collides_update v (w ∷ ws) = ground (arith, collides_update v w, any-collides_update v ws)

  collides_updated :
      (v : Workspace) (ws : List Workspace)
      → any (collides (if p v then f v else v)) ws ≡ any (collides v) ws
  collides_updated v [] = refl
  collides_updated v (w ∷ ws) = ground (
    arith,
    collides_comm (if p v then f v else v) w,
    collides_update w v,
    collides_comm v w,
    collides_updated v ws,
  )

  Distinct-update : (ws : List Workspace) → Distinct ws → Distinct (update_where p f ws)
  unfolding update_where
  Distinct-update [] h = tt
  Distinct-update (w ∷ ws) h = (
    any-collides_update (if p w then f w else w) ws ∙ (collides_updated w ws ∙ h.0),
    Distinct-update ws h.1,
  )

  All-update :
      (ws : List Workspace)
      → ((w : Workspace) → p w ≡ true → IsDated w → IsDated (f w))
      → All IsDated ws
      → All IsDated (update_where p f ws)
  unfolding update_where
  All-update [] step h = tt
  All-update (w ∷ ws) step h = elim (Bool-cases (p w)) [
    | inl e ↦ rw e (step w e h.0, All-update ws step h.1)
    | inr e ↦ rw e (h.0, All-update ws step h.1)
  ]

renamed-IsDated : (name : Text) (now : ℕ) (w : Workspace) → IsDated w → IsDated (renamed name now w)
renamed-IsDated name now w h = h

put_away-IsDated : (now : ℕ) (w : Workspace) → IsDated (put_away now w)
put_away-IsDated now w = ((λ e. cc), λ e. refl)

Changed-IsValid :
    (public : Text) (f : Workspace → Workspace) (ev : Event) (s t : Session) (w : Workspace)
    → ((v : Workspace) → (f v).id ≡ v.id)
    → ((v : Workspace) → (f v).slug ≡ v.slug)
    → ((v : Workspace) → IsDated v → IsDated (f v))
    → Changed public f ev s t w
    → IsValid s.db
    → IsValid t.db
Changed-IsValid public f ev s t w keeps_id keeps_slug keeps_date c h =
    subst IsValid (sym c.written) (
      Distinct-update (guarded c.id) f keeps_id keeps_slug s.db.workspaces h.0,
      All-update (guarded c.id) f keeps_id keeps_slug s.db.workspaces (λ v _ d. keeps_date v d) h.1,
    )

Created-IsValid :
    (env : Env) (raw_name : Text) (ev : Event) (s t : Session) (w : Workspace)
    → Created env raw_name ev s t w
    → IsValid s.db
    → IsValid t.db
Created-IsValid env raw_name ev s t w c h = subst IsValid (sym c.written) (
  Distinct-append s.db.workspaces w h.0 c.free,
  All-append IsDated s.db.workspaces (w ∷ []) h.1 (((λ e. c.state.1), λ e. cc (c.state.0)), tt),
)

-- Every mutation of the service keeps ids and slugs distinct, those of archived rows included, and
-- the dates of archiving right, whichever statements fail.
pub mutations-IsValid :
    (env : Env) (public raw_name raw_slug : Text) (ev : Event) (s : Session)
    → IsValid s.db
    → IsValid (create_workspace env raw_name raw_slug ev s).1.db
      × IsValid (rename_workspace env public raw_name ev s).1.db
      × IsValid (archive_workspace env public ev s).1.db
mutations-IsValid env public raw_name raw_slug ev s h =
    let (c, r, a) = mutations-IsAtomic env public raw_name raw_slug ev in
    (
      IsAtomic-keeps IsValid (create_workspace env raw_name raw_slug ev) c
          (λ u v w e.
            Created-IsValid env raw_name ev u v w
              (create_workspace-Created env raw_name raw_slug ev u v w e))
          s h,
      IsAtomic-keeps IsValid (rename_workspace env public raw_name ev) r
          (λ u v w e.
            Changed-IsValid public (renamed (trim_space raw_name) env.now) ev u v w (λ x. refl)
              (λ x. refl) (renamed-IsDated (trim_space raw_name) env.now)
              (rename_workspace-Changed env public raw_name ev u v w e).1)
          s h,
      IsAtomic-keeps IsValid (archive_workspace env public ev) a
          (λ u v w e.
            Changed-IsValid public (put_away env.now) ev u v w (λ x. refl) (λ x. refl)
              (λ x d. put_away-IsDated env.now x)
              (archive_workspace-Changed env public ev u v w e).1)
          s h,
    )
