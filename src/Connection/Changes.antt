-- ===== src/Connection/Changes.antt =====
-- The changes that the statements make keep the table.
use mathlib.Core.Path.{subst}
use lightweight_saas_backend.Prelude.{
  Bool, Bool-cases, List, Option, ap, arith, false, inl, inr, refl, sym, true, ℕ, ◌∙◌, ◌≡◌,
}
use lightweight_saas_backend.Connection.Effects.{activated_rows}
use lightweight_saas_backend.Connection.Model.{
  Row, Status, active, draft, is_active, is_draft, retired,
}
use lightweight_saas_backend.Connection.Repository.{
  ConfigPatch, VerifyReport, changing, ended, guarded_by, incumbent, judged, patched, promoted,
  touches_target, two_active, unverified, update_rows,
}
use lightweight_saas_backend.Connection.Table.{
  DatedAs, IsRow, IsTable, IsTame, map-DistinctIds, map-IsRow, map-two_active,
}
use lightweight_saas_backend.Secrets.{Sealed}
use lightweight_saas_backend.Text.{Text}

pub changing-IsTame :
    (guard : Row → Bool) (f : Row → Row)
    → ((r : Row) → (f r).conn.id ≡ r.conn.id)
    → ((r : Row) → (f r).conn.workspace_id ≡ r.conn.workspace_id)
    → ((r : Row) → guard r ≡ true → IsRow r → IsRow (f r))
    → IsTame (changing guard f)
changing-IsTame guard f id_kept workspace_kept row_kept = record {
  keeps_id =
      λ r. elim (Bool-cases (guard r)) [ inl hit ↦ rw hit (id_kept r) | inr miss ↦ rw miss refl ];
  keeps_workspace = λ r. elim (Bool-cases (guard r)) [
    | inl hit ↦ rw hit (workspace_kept r)
    | inr miss ↦ rw miss refl
  ];
  keeps_row = λ r w. elim (Bool-cases (guard r)) [
    | inl hit ↦ rw hit (row_kept r hit w)
    | inr miss ↦ rw miss w
  ];
}

patched-IsRow :
    (patch : ConfigPatch) (sealed : Option Sealed) (now : ℕ) (r : Row)
    → IsRow r
    → IsRow (patched patch sealed now r)
unfolding patched unverified
patched-IsRow patch sealed now r (dated, verdict) =
    elim (Bool-cases (touches_target patch sealed)) [
      | inl hits ↦ rw hits (dated, refl)
      | inr untouched ↦ rw untouched (dated, verdict)
    ]

patched-kept :
    (patch : ConfigPatch) (sealed : Option Sealed) (now : ℕ) (r : Row)
    → ((patched patch sealed now r).conn.id ≡ r.conn.id)
      × ((patched patch sealed now r).conn.workspace_id ≡ r.conn.workspace_id)
      × ((patched patch sealed now r).conn.status ≡ r.conn.status)
unfolding patched unverified
patched-kept patch sealed now r = elim (Bool-cases (touches_target patch sealed)) [
  | inl hits ↦ rw hits (refl, refl, refl)
  | inr untouched ↦ rw untouched (refl, refl, refl)
]

pub patched-IsTame :
    (guard : Row → Bool) (patch : ConfigPatch) (sealed : Option Sealed) (now : ℕ)
    → IsTame (changing guard (patched patch sealed now))
patched-IsTame guard patch sealed now =
    changing-IsTame guard (patched patch sealed now) (λ r. (patched-kept patch sealed now r).0)
      (λ r. (patched-kept patch sealed now r).1) (λ r hit w. patched-IsRow patch sealed now r w)

judged-IsRow : (report : VerifyReport) (r : Row) → IsRow r → IsRow (judged report r)
unfolding judged
judged-IsRow report r (dated, verdict) = elim (Bool-cases report.ok_verdict) [
  | inl fine ↦ rw fine (dated, refl)
  | inr broken ↦ rw broken (dated, refl)
]

pub judged-IsTame :
    (guard : Row → Bool) (report : VerifyReport) → IsTame (changing guard (judged report))
unfolding judged
judged-IsTame guard report =
    changing-IsTame guard (judged report) (λ r. refl) (λ r. refl)
      (λ r hit w. judged-IsRow report r w)

pub ended-IsTame : (guard : Row → Bool) (now : ℕ) → IsTame (changing guard (ended now))
unfolding ended
ended-IsTame guard now =
    changing-IsTame guard (ended now) (λ r. refl) (λ r. refl) (λ r hit w. (refl, w.1))

pub is_draft-eq-true : (s : Status) → is_draft s ≡ true → s ≡ draft
is_draft-eq-true draft h = refl
is_draft-eq-true active h = absurd (ground arith)
is_draft-eq-true retired h = absurd (ground arith)

promoted-IsRow :
    (id : Text) (now : ℕ) (r : Row)
    → guarded_by id is_draft r ≡ true
    → IsRow r
    → IsRow (promoted now r)
unfolding promoted
promoted-IsRow id now r hit (dated, verdict) =
    let was_draft = is_draft-eq-true r.conn.status (ground arith) in
    let (_, not_ended) =
      subst (λ s. DatedAs s r.conn.activated_at r.conn.retired_at) was_draft dated in
    ((refl, not_ended), verdict)

pub promoted-IsTame :
    (id : Text) (now : ℕ) → IsTame (changing (guarded_by id is_draft) (promoted now))
unfolding promoted
promoted-IsTame id now =
    changing-IsTame (guarded_by id is_draft) (promoted now) (λ r. refl) (λ r. refl)
      (promoted-IsRow id now)

-- Only a promotion brings a row into service.
no_more :
    (guard : Row → Bool) (f : Row → Row)
    → ((r : Row) → is_active (f r).conn.status ≡ true → is_active r.conn.status ≡ true)
    → (r : Row) → is_active (changing guard f r).conn.status ≡ true
    → is_active r.conn.status ≡ true
no_more guard f h r = elim (Bool-cases (guard r)) [
  | inl hit ↦ rw hit (h r)
  | inr miss ↦ rw miss (λ e. e)
]

updated-IsTable :
    (guard : Row → Bool) (f : Row → Row) (rows : List Row)
    → IsTame (changing guard f)
    → ((r : Row) → is_active (f r).conn.status ≡ true → is_active r.conn.status ≡ true)
    → IsTable rows
    → IsTable (update_rows guard f rows)
updated-IsTable guard f rows tame h t = record {
  distinct = map-DistinctIds (changing guard f) tame rows t.distinct;
  one_active = map-two_active (changing guard f) tame (no_more guard f h) rows t.one_active;
  well_formed = map-IsRow (changing guard f) tame rows t.well_formed;
}

pub patched-IsTable :
    (guard : Row → Bool) (patch : ConfigPatch) (sealed : Option Sealed) (now : ℕ) (rows : List Row)
    → IsTable rows
    → IsTable (update_rows guard (patched patch sealed now) rows)
patched-IsTable guard patch sealed now rows t =
    updated-IsTable guard (patched patch sealed now) rows (patched-IsTame guard patch sealed now)
      (λ r e. ap is_active (sym (patched-kept patch sealed now r).2) ∙ e) t

pub judged-IsTable :
    (guard : Row → Bool) (report : VerifyReport) (rows : List Row)
    → IsTable rows
    → IsTable (update_rows guard (judged report) rows)
unfolding judged
judged-IsTable guard report rows t =
    updated-IsTable guard (judged report) rows (judged-IsTame guard report) (λ r e. e) t

pub ended-IsTable :
    (guard : Row → Bool) (now : ℕ) (rows : List Row)
    → IsTable rows
    → IsTable (update_rows guard (ended now) rows)
unfolding ended
ended-IsTable guard now rows t =
    updated-IsTable guard (ended now) rows (ended-IsTame guard now) (λ r e. absurd (ground arith)) t

pub activated-IsTable :
    (id workspace_id : Text) (now : ℕ) (rows : List Row)
    → IsTable rows
    → two_active (activated_rows id workspace_id now rows) ≡ false
    → IsTable (activated_rows id workspace_id now rows)
activated-IsTable id workspace_id now rows t free =
    let first = ended-IsTable (incumbent id workspace_id) now rows t in
    let rest = update_rows (incumbent id workspace_id) (ended now) rows in
    let h = changing (guarded_by id is_draft) (promoted now) in
    let tame = promoted-IsTame id now in
    record {
      distinct = map-DistinctIds h tame rest first.distinct;
      one_active = free;
      well_formed = map-IsRow h tame rest first.well_formed;
    }
