-- ===== src/Connection/Views.antt =====
-- What the changes of the table of connections do to the view of each id.
use mathlib.Core.Path.{subst}
use lightweight_saas_backend.Prelude.{
  Bool, Bool-cases, List, Option, [], any, ap, arith, false, find, inl, inr, map, none, not, refl,
  select, some, sym, true, ℕ, ◌++◌, ◌∙◌, ◌∷◌, ◌≡◌,
}
use lightweight_saas_backend.Connection.Changes.{ended-IsTame, is_draft-eq-true, promoted-IsTame}
use lightweight_saas_backend.Connection.Effects.{activated_rows}
use lightweight_saas_backend.Connection.Model.{
  Row, Status, active, draft, is_active, is_draft, is_retired, retired,
}
use lightweight_saas_backend.Connection.Repository.{
  ConfigPatch, changing, ended, guarded_by, incumbent, not_active, not_retired, patched, promoted,
  row_has_id, touches_target, unverified,
}
use lightweight_saas_backend.Connection.Table.{DistinctIds, IsTame}
use lightweight_saas_backend.Connection.View.{
  Moves, drafted, dropped, entered, left, seen, seen_option, stays, view,
}
use lightweight_saas_backend.Secrets.{Sealed}
use lightweight_saas_backend.Text.{Text, text_eq}
use lightweight_saas_backend.Text.Laws.{text_eq_iff}

abbrev pub changed : (Row → Row) → Option Row → Option Row
changed h none = none
changed h (some r) = some (h r)

pub find-map :
    (h : Row → Row)
    → IsTame h
    → (id : Text) (rows : List Row)
    → find (row_has_id id) (map h rows) ≡ changed h (find (row_has_id id) rows)
find-map h tame id [] = refl
find-map h tame id (r ∷ rows) = elim (Bool-cases (text_eq r.conn.id id)) [
  | inl hit ↦ rw (ap (λ x. text_eq x id) (tame.keeps_id r) ∙ hit, hit) refl
  | inr miss ↦ rw (ap (λ x. text_eq x id) (tame.keeps_id r) ∙ miss, miss) (find-map h tame id rows)
]

changed-Moves :
    (h : Row → Row)
    → ((r : Row) → Moves (seen r) (seen (h r)))
    → (o : Option Row) → Moves (seen_option o) (seen_option (changed h o))
changed-Moves h moves none = stays none
changed-Moves h moves (some r) = moves r

pub map-Moves :
    (h : Row → Row)
    → IsTame h
    → ((r : Row) → Moves (seen r) (seen (h r)))
    → (id : Text) (rows : List Row) → Moves (view id rows) (view id (map h rows))
map-Moves h tame moves id rows =
    subst (λ o. Moves (view id rows) (seen_option o)) (sym (find-map h tame id rows))
      (changed-Moves h moves (find (row_has_id id) rows))

pub unmoved :
    (guard : Row → Bool) (f : Row → Row)
    → ((r : Row) → seen (f r) ≡ seen r)
    → (r : Row) → Moves (seen r) (seen (changing guard f r))
unmoved guard f same r = elim (Bool-cases (guard r)) [
  | inl hit ↦ rw hit (subst (Moves (seen r)) (sym (same r)) (stays (seen r)))
  | inr miss ↦ rw miss (stays (seen r))
]

pub patched-seen :
    (patch : ConfigPatch) (sealed : Option Sealed) (now : ℕ) (r : Row)
    → seen (patched patch sealed now r) ≡ seen r
unfolding patched unverified
patched-seen patch sealed now r = elim (Bool-cases (touches_target patch sealed)) [
  | inl hits ↦ rw hits refl
  | inr misses ↦ rw misses refl
]

pub ended-Moves :
    (id : Text) (now : ℕ) (r : Row)
    → Moves (seen r) (seen (changing (guarded_by id not_retired) (ended now) r))
unfolding ended
ended-Moves id now r = elim (Bool-cases (guarded_by id not_retired r)) [
  | inl hit ↦ rw hit (left r.conn.workspace_id r.conn.status (ground arith))
  | inr miss ↦ rw miss (stays (seen r))
]

is_active-eq-true : (st : Status) → is_active st ≡ true → is_retired st ≡ false
is_active-eq-true draft h = refl
is_active-eq-true active h = refl
is_active-eq-true retired h = absurd (ground arith)

-- An activation takes the incumbent out of service and brings the draft into it.
module _ (id workspace_id : Text) (now : ℕ) where
  unfoldable pub retires : Row → Row
  retires = changing (incumbent id workspace_id) (ended now)

  unfoldable pub promotes : Row → Row
  promotes = changing (guarded_by id is_draft) (promoted now)

  promotes-Moves : (r : Row) → Moves (seen r) (seen (promotes r))
  unfolding promotes promoted
  promotes-Moves r = elim (Bool-cases (guarded_by id is_draft r)) [
    | inl hit ↦
        let was_draft = is_draft-eq-true r.conn.status (ground arith) in
        rw hit (
          subst (λ st. Moves (some (r.conn.workspace_id, st)) (some (r.conn.workspace_id, active)))
            (sym was_draft) (entered r.conn.workspace_id))
    | inr miss ↦ rw miss (stays (seen r))
  ]

  activated-Moves : (r : Row) → Moves (seen r) (seen (promotes (retires r)))
  unfolding retires promotes ended
  activated-Moves r = elim (Bool-cases (incumbent id workspace_id r)) [
    | inl hit ↦
        let other : text_eq r.conn.id id ≡ false = ground arith in
        rw (hit, other)
          (left r.conn.workspace_id r.conn.status (is_active-eq-true r.conn.status (ground arith)))
    | inr miss ↦ rw miss (promotes-Moves r)
  ]

  changed_twice :
      (o : Option Row)
      → changed promotes (changed retires o) ≡ changed (λ r. promotes (retires r)) o
  changed_twice none = refl
  changed_twice (some r) = refl

  pub activated_view :
      (lookup : Text) (rows : List Row)
      → Moves (view lookup rows) (view lookup (activated_rows id workspace_id now rows))
  unfolding retires promotes
  activated_view lookup rows =
      let first = find-map retires (ended-IsTame (incumbent id workspace_id) now) lookup rows in
      let second = find-map promotes (promoted-IsTame id now) lookup (map retires rows) in
      subst (λ o. Moves (view lookup rows) (seen_option o))
        (sym (second ∙ ap (changed promotes) first ∙ changed_twice (find (row_has_id lookup) rows)))
        (changed-Moves (λ r. promotes (retires r)) activated-Moves (find (row_has_id lookup) rows))

pub appended_view :
    (id : Text) (rows : List Row) (r : Row)
    → any (row_has_id r.conn.id) rows ≡ false
    → is_draft r.conn.status ≡ true
    → Moves (view id rows) (view id (rows ++ r ∷ []))
appended_view id [] r unseen fresh = elim (Bool-cases (text_eq r.conn.id id)) [
  | inl hit ↦ rw hit (
      subst (λ st. Moves none (some (r.conn.workspace_id, st)))
        (sym (is_draft-eq-true r.conn.status fresh)) (drafted r.conn.workspace_id))
  | inr miss ↦ rw miss (stays none)
]
appended_view id (x ∷ rows) r unseen fresh = elim (Bool-cases (text_eq x.conn.id id)) [
  | inl hit ↦ rw hit (stays (seen x))
  | inr miss ↦ rw miss (appended_view id rows r (ground arith) fresh)
]

none-view :
    (id : Text) (keep : Row → Bool) (rows : List Row)
    → any (row_has_id id) rows ≡ false
    → view id (select keep rows) ≡ none
none-view id keep [] unseen = refl
none-view id keep (r ∷ rows) unseen = elim (Bool-cases (keep r)) [
  | inl kept ↦
      let other : text_eq r.conn.id id ≡ false = ground arith in
      rw (kept, other) (none-view id keep rows (ground arith))
  | inr gone ↦ rw gone (none-view id keep rows (ground arith))
]

pub deleted_view :
    (lookup id : Text) (rows : List Row)
    → DistinctIds rows
    → Moves (view lookup rows) (view lookup (select (λ r. not (guarded_by id not_active r)) rows))
deleted_view lookup id [] d = stays none
deleted_view lookup id (r ∷ rows) (d, ds) =
    let rest = deleted_view lookup id rows ds in
    elim (Bool-cases (guarded_by id not_active r)) [
      | inl hit ↦ elim (Bool-cases (text_eq r.conn.id lookup)) [
        | inl same ↦
            let is_lookup = (text_eq_iff r.conn.id lookup).0 same in
            rw (hit, same)
              (rw
                (none-view lookup (λ x. not (guarded_by id not_active x)) rows
                  (ap (λ t. any (row_has_id t) rows) (sym is_lookup) ∙ d))
                (dropped r.conn.workspace_id r.conn.status (ground arith)))
        | inr other ↦ rw (hit, other) rest
      ]
      | inr miss ↦ elim (Bool-cases (text_eq r.conn.id lookup)) [
        | inl same ↦ rw (miss, same) (stays (seen r))
        | inr other ↦ rw (miss, other) rest
      ]
    ]
