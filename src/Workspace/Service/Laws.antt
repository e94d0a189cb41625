-- ===== src/Workspace/Service/Laws.antt =====
-- The mutations of the workspace service: all or nothing, and what a success did.
use mathlib.Core.Path.{subst}
use lightweight_saas_backend.Prelude.{
  All, Option, Option-cases, [], any, ap, arith, false, find, inl, inr, none, refl, some, sym, ℕ,
  ◌++◌, ◌∙◌, ◌∷◌, ◌≡◌, ◌≢◌, ◌≤◌,
}
use lightweight_saas_backend.Audit.{Event}
use lightweight_saas_backend.PublicId.{Parsed, new, parse, parsed, unparsed, workspace_prefix}
use lightweight_saas_backend.Store.{M, Session, ok}
use lightweight_saas_backend.Store.Laws.{IsAtomic, in_tx-IsAtomic, lift->>=-eq-ok, lift-IsAtomic}
use lightweight_saas_backend.Text.{Text, len, trim_space}
use lightweight_saas_backend.Text.Laws.{text_eq_iff}
use lightweight_saas_backend.Workspace.Model.{Workspace, active, archived}
use lightweight_saas_backend.Workspace.Repository.{
  Error, archive, collides, driver, guarded, has_id, put_away, renamed, update_name, update_where,
}
use lightweight_saas_backend.Workspace.Service.{
  Env, about, archive_workspace, chosen_slug, create_workspace, fresh_workspace, insert_recorded,
  of_new, of_slug_error, recorded, rename_workspace, resolve_id, valid_name, valid_slug,
}
use lightweight_saas_backend.Workspace.Service.Effects.{
  Updates, archive-Updates, insert_recorded-eq-ok, recorded-eq-ok, touched, touched_row,
  update_name-Updates,
}
use lightweight_saas_backend.Workspace.Slug.{
  SlugError, max_name_length, max_slug_length, normalize_name, reserved_slugs, slug_invalid,
  slug_reserved, validate_slug,
}
use lightweight_saas_backend.Workspace.Slug.Grammar.{IsSlug, validate_slug_iff}

-- Every mutation, in every session, whichever statements fail, COMMIT included: where it returns an
-- error, the tables and the audit trail are what they were.
pub mutations-IsAtomic :
    (env : Env) (public raw_name raw_slug : Text) (ev : Event)
    → IsAtomic (create_workspace env raw_name raw_slug ev)
      × IsAtomic (rename_workspace env public raw_name ev)
      × IsAtomic (archive_workspace env public ev)
unfolding create_workspace insert_recorded rename_workspace archive_workspace recorded
mutations-IsAtomic env public raw_name raw_slug ev = (
  lift-IsAtomic (valid_name (normalize_name raw_name)) _ (λ name.
      lift-IsAtomic (valid_slug (chosen_slug env.table name raw_slug)) _
        (λ slug. lift-IsAtomic (of_new (new env.entropy)) _ (λ id. in_tx-IsAtomic driver _))),
  lift-IsAtomic (resolve_id public) _ (λ id.
      lift-IsAtomic (valid_name (normalize_name raw_name)) _ (λ name. in_tx-IsAtomic driver _)),
  lift-IsAtomic (resolve_id public) _ (λ id. in_tx-IsAtomic driver _),
)

-- A name that the service accepts.
abbrev pub IsName : Text → Type 0
IsName name = (name ≢ []) × (len name ≤ max_name_length)

valid_name-eq-ok : (raw name : Text) → valid_name raw ≡ ok name → (name ≡ raw) × IsName name
unfolding valid_name
valid_name-eq-ok raw name h =
    let same : raw ≡ name = ground arith in
    let named : IsName raw = ((λ e. ground (arith, text_eq_iff raw [])), ground arith) in
    (sym same, subst IsName same named)

valid_slug-eq-ok :
    (raw slug : Text) → valid_slug raw ≡ ok slug → (slug ≡ raw) × (validate_slug slug ≡ none)
unfolding valid_slug of_slug_error
valid_slug-eq-ok raw slug h = elim (Option-cases (validate_slug raw)) [
  | inl e ↦
      let same : raw ≡ slug = ground arith in (sym same, subst (λ t. validate_slug t ≡ none) same e)
  | inr (x, e) ↦ absurd (refused_slug x (rw (e, of_slug_error) at h))
]
  where
    refused_slug : (x : SlugError) → of_slug_error (some x) raw ≡ ok slug → ⊥
    refused_slug slug_invalid k = ground arith
    refused_slug slug_reserved k = ground arith

of_new-eq-ok : (o : Option Text) (id : Text) → of_new o ≡ ok id → o ≡ some id
unfolding of_new
of_new-eq-ok none id h = absurd (ground arith)
of_new-eq-ok (some u) id h = ground arith

pub resolve_id-eq-ok :
    (public id : Text) → resolve_id public ≡ ok id → parse workspace_prefix public ≡ parsed id
unfolding resolve_id
resolve_id-eq-ok public id h = go (parse workspace_prefix public) refl
  where
    go :
        (r : Parsed) → parse workspace_prefix public ≡ r → parse workspace_prefix public ≡ parsed id
    go (parsed u) e = e ∙ ground arith
    go (unparsed x) e = absurd (ground arith)

-- What creating a workspace did.
pub record Created (env : Env) (raw_name : Text) (ev : Event) (s t : Session) (w : Workspace)
    : Type 0 where
  pub named : (w.name ≡ trim_space raw_name) × IsName w.name
  pub slugged :
      IsSlug w.slug × (len w.slug ≤ max_slug_length) × All (λ r. w.slug ≢ r) reserved_slugs
  pub identified : new env.entropy ≡ some w.id
  pub state : (w.status ≡ active) × (w.archived_at ≡ none)
  pub stamped : (w.created_at ≡ env.now) × (w.updated_at ≡ env.now)
  pub free : any (collides w) s.db.workspaces ≡ false
  pub written : t.db ≡ record s.db {
    workspaces = s.db.workspaces ++ w ∷ [];
    audit = s.db.audit ++ about w ev ∷ [];
  }

insert_recorded-Created :
    (env : Env) (raw_name : Text) (id slug name : Text) (ev : Event) (s t : Session) (w : Workspace)
    → (name ≡ trim_space raw_name) × IsName name
    → validate_slug slug ≡ none
    → new env.entropy ≡ some id
    → insert_recorded env (fresh_workspace id slug name env.now) ev s ≡ (ok w, t)
    → Created env raw_name ev s t w
unfolding fresh_workspace
insert_recorded-Created env raw_name id slug name ev s t w named slugged identified h =
    let w' = fresh_workspace id slug name env.now in
    let (same, free, accepted, after) = insert_recorded-eq-ok env w' w ev s t h in
    subst (Created env raw_name ev s t) same (record {
      named = named;
      slugged = (validate_slug_iff slug).0 slugged;
      identified = identified;
      state = (refl, refl);
      stamped = (refl, refl);
      free = free;
      written =
          subst
            (λ v. t.db ≡ record s.db {
              workspaces = s.db.workspaces ++ w' ∷ [];
              audit = s.db.audit ++ about v ev ∷ [];
            })
            (sym same) after;
    })

-- A workspace that is returned has a valid name, a valid slug that is not reserved, the fresh id and
-- the state active; no row had its id or slug; and exactly it and the event about it were added.
pub create_workspace-Created :
    (env : Env) (raw_name raw_slug : Text) (ev : Event) (s t : Session) (w : Workspace)
    → create_workspace env raw_name raw_slug ev s ≡ (ok w, t)
    → Created env raw_name ev s t w
unfolding create_workspace normalize_name
create_workspace-Created env raw_name raw_slug ev s t w h =
    let (name, was_name, h1) = lift->>=-eq-ok (valid_name (normalize_name raw_name)) _ s t w h in
    let (slug, was_slug, h2) =
      lift->>=-eq-ok (valid_slug (chosen_slug env.table name raw_slug)) _ s t w h1 in
    let (id, was_id, h3) = lift->>=-eq-ok (of_new (new env.entropy)) _ s t w h2 in
    insert_recorded-Created env raw_name id slug name ev s t w
      (valid_name-eq-ok (normalize_name raw_name) name was_name)
      (valid_slug-eq-ok _ slug was_slug).1 (of_new-eq-ok (new env.entropy) id was_id) h3

-- What a mutation of a row did, in terms of the UPDATE: the id parses, a row was there and is
-- returned as the UPDATE leaves it, and the event about it was added.
pub record Changed (public : Text) (f : Workspace → Workspace) (ev : Event) (s t : Session)
    (w : Workspace) : Type 0 where
  pub id : Text
  pub named : parse workspace_prefix public ≡ parsed id
  pub row : Workspace
  pub was : find (has_id id) s.db.workspaces ≡ some row
  pub returned : w ≡ touched f row
  pub written : t.db ≡ record s.db {
    workspaces = update_where (guarded id) f s.db.workspaces;
    audit = s.db.audit ++ about w ev ∷ [];
  }

touched_row-eq-some :
    (f : Workspace → Workspace) (o : Option Workspace) (w : Workspace)
    → some w ≡ touched_row f o
    → (row : Workspace) × (o ≡ some row) × (w ≡ touched f row)
touched_row-eq-some f none w h = absurd (ground arith)
touched_row-eq-some f (some row) w h = (row, refl, ground arith)

recorded-Changed :
    (env : Env) (public id : Text) (f : Workspace → Workspace)
    (mutation : M Error (Option Workspace)) (ev : Event) (s t : Session) (w : Workspace)
    → parse workspace_prefix public ≡ parsed id
    → ((u v : Session) (row : Option Workspace) → mutation u ≡ (ok row, v) → Updates id f u v row)
    → recorded env mutation ev s ≡ (ok w, t)
    → Changed public f ev s t w
recorded-Changed env public id f mutation ev s t w named updates h =
    let (u, mutated, accepted, after) = recorded-eq-ok env mutation ev s t w h in
    let (shown, stored) = updates _ u (some w) mutated in
    let (row, was, returned) = touched_row-eq-some f _ w shown in
    record {
      id = id;
      named = named;
      row = row;
      was = was;
      returned = returned;
      written = subst (λ d. t.db ≡ record d { audit = d.audit ++ about w ev ∷ [] }) stored after;
    }

-- The UPDATE of a rename that succeeds is that of the trimmed name, which is valid.
pub rename_workspace-Changed :
    (env : Env) (public raw_name : Text) (ev : Event) (s t : Session) (w : Workspace)
    → rename_workspace env public raw_name ev s ≡ (ok w, t)
    → IsName (trim_space raw_name) × Changed public (renamed (trim_space raw_name) env.now) ev s t w
unfolding rename_workspace normalize_name
rename_workspace-Changed env public raw_name ev s t w h =
    let (id, was_id, h1) = lift->>=-eq-ok (resolve_id public) _ s t w h in
    let (name, was_name, h2) = lift->>=-eq-ok (valid_name (trim_space raw_name)) _ s t w h1 in
    let (same, is_name) = valid_name-eq-ok (trim_space raw_name) name was_name in
    subst (λ n. IsName n × Changed public (renamed n env.now) ev s t w) same
      (
        is_name,
        recorded-Changed env public id (renamed name env.now) (update_name id name env.now) ev s t w
            (resolve_id-eq-ok public id was_id) (update_name-Updates id name env.now) h2,
      )

put_away-archived : (now : ℕ) (w : Workspace) → (touched (put_away now) w).status ≡ archived
put_away-archived now w = ground arith

-- The UPDATE of an archiving that succeeds; the row that is returned is archived.
pub archive_workspace-Changed :
    (env : Env) (public : Text) (ev : Event) (s t : Session) (w : Workspace)
    → archive_workspace env public ev s ≡ (ok w, t)
    → (w.status ≡ archived) × Changed public (put_away env.now) ev s t w
unfolding archive_workspace
archive_workspace-Changed env public ev s t w h =
    let (id, was_id, h1) = lift->>=-eq-ok (resolve_id public) _ s t w h in
    let c =
      recorded-Changed env public id (put_away env.now) (archive id env.now) ev s t w
        (resolve_id-eq-ok public id was_id) (archive-Updates id env.now) h1 in
    (ap (λ x. x.status) c.returned ∙ put_away-archived env.now c.row, c)
