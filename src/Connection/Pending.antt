-- ===== src/Connection/Pending.antt =====
-- The rows whose turn is still to come in a run of the rotation.
use lightweight_saas_backend.Prelude.{
  ==_iff, Bool, Bool-cases, List, [], all, any, ap, arith, false, find, inl, inr, map, refl, select,
  some, sym, true, ℕ, ◌==◌, ◌||◌, ◌∙◌, ◌∷◌, ◌≡◌, ◌≢◌,
}
use lightweight_saas_backend.Connection.Model.{Row}
use lightweight_saas_backend.Connection.Repository.{row_has_id, sealed_of, update_rows}
use lightweight_saas_backend.Connection.RotatedTable.{update-missing}
use lightweight_saas_backend.Connection.Rotation.{
  Rotator, already_current, decide_row, fail_with, id_of, not_current, opened_row, resealed,
  sealed_again, sealed_under, settled,
}
use lightweight_saas_backend.Connection.Service.{secret_aad}
use lightweight_saas_backend.Connection.Table.{DistinctIds}
use lightweight_saas_backend.Secrets.{Sealed, SecretError, open_sealed, seal}
use lightweight_saas_backend.Store.{Result, err, ok}
use lightweight_saas_backend.Text.{Text, text_eq}
use lightweight_saas_backend.Text.Laws.{text_eq_iff, text_eq_refl}

-- The row is current, or its turn is still to come.
abbrev pub pending : ℕ → List Text → Row → Bool
pending current ids x = x.sealed.key_version == current || any (text_eq x.conn.id) ids

pending-cons :
    (current : ℕ) (id : Text) (ids : List Text) (rows : List Row)
    → all (pending current ids) rows ≡ true
    → all (pending current (id ∷ ids)) rows ≡ true
pending-cons current id ids [] h = refl
pending-cons current id ids (x ∷ rows) h = ground (arith, pending-cons current id ids rows)

pub listed-pending :
    (current : ℕ) (rows : List Row)
    → all (pending current (map id_of (select (not_current current) rows))) rows ≡ true
listed-pending current [] = refl
listed-pending current (x ∷ rows) = elim (Bool-cases (x.sealed.key_version == current)) [
  | inl up_to_date ↦
      let same : map id_of (select (not_current current) (x ∷ rows))
          ≡ map id_of (select (not_current current) rows) =
        rw up_to_date refl in
      ap (λ ids. all (pending current ids) (x ∷ rows)) same
      ∙ ground (arith, listed-pending current rows)
  | inr old ↦
      let same : map id_of (select (not_current current) (x ∷ rows))
          ≡ x.conn.id ∷ map id_of (select (not_current current) rows) =
        rw old refl in
      let rest =
        pending-cons current x.conn.id (map id_of (select (not_current current) rows)) rows
          (listed-pending current rows) in
      ap (λ ids. all (pending current ids) (x ∷ rows)) same
      ∙ ground (arith, text_eq_refl x.conn.id, rest)
]

module _ (r : Rotator) (id : Text) (ids : List Text) where
  -- No row of the list has the id.
  pending-missing :
      (rows : List Row)
      → any (row_has_id id) rows ≡ false
      → all (pending r.ring.current (id ∷ ids)) rows ≡ true
      → all (pending r.ring.current ids) rows ≡ true
  pending-missing [] unseen h = refl
  pending-missing (x ∷ rows) unseen h = ground (arith, pending-missing rows)

  decided_current :
      (old : Sealed)
      → decide_row r id (some old) ≡ settled already_current
      → (old.key_version == r.ring.current) ≡ true
  unfolding decide_row opened_row sealed_again fail_with
  decided_current old h = elim (Bool-cases (old.key_version == r.ring.current)) [
    | inl same ↦ same
    | inr other ↦ absurd (go (open_sealed r.aead r.ring old (secret_aad id)) (rw other at h))
  ]
    where
      sealing_one :
          (x : Result SecretError Sealed) → sealed_again id old x ≢ settled already_current
      sealing_one (err e) k = absurd (ground arith)
      sealing_one (ok v) k = absurd (ground arith)

      go : (x : Result SecretError (List ℕ)) → opened_row r id old x ≢ settled already_current
      go (err e) k = absurd (ground arith)
      go (ok p) k = sealing_one (seal r.aead r.ring (r.nonce id) p (secret_aad id)) k

  -- A row that needed nothing is current.
  pub untouched-pending :
      (rows : List Row)
      → DistinctIds rows
      → decide_row r id (sealed_of (find (row_has_id id) rows)) ≡ settled already_current
      → all (pending r.ring.current (id ∷ ids)) rows ≡ true
      → all (pending r.ring.current ids) rows ≡ true
  untouched-pending [] d decided h = refl
  untouched-pending (x ∷ rows) (d, ds) decided h = elim (Bool-cases (text_eq x.conn.id id)) [
    | inl hit ↦
        let is_id = (text_eq_iff x.conn.id id).0 hit in
        let unseen : any (row_has_id id) rows ≡ false =
          ap (λ t. any (row_has_id t) rows) (sym is_id) ∙ d in
        let up_to_date = decided_current x.sealed (rw hit at decided) in
        rw (up_to_date, pending-missing rows unseen (ground arith)) refl
    | inr miss ↦
        let rest = untouched-pending rows ds (rw miss at decided) (ground arith) in
        ground (arith, rest)
  ]

  -- The row that was written is current.
  pub written-pending :
      (old new_sealed : Sealed) (rows : List Row)
      → DistinctIds rows
      → sealed_of (find (row_has_id id) rows) ≡ some old
      → new_sealed.key_version ≡ r.ring.current
      → all (pending r.ring.current (id ∷ ids)) rows ≡ true
      → all
          (pending r.ring.current ids)
          (update_rows (sealed_under id old.key_version) (resealed new_sealed) rows)
        ≡ true
  unfolding resealed
  written-pending old new_sealed [] d h version all_pending = refl
  written-pending old new_sealed (x ∷ rows) (d, ds) h version all_pending =
      elim (Bool-cases (text_eq x.conn.id id)) [
        | inl hit ↦
            let is_id = (text_eq_iff x.conn.id id).0 hit in
            let is_old : x.sealed ≡ old = ground arith in
            let unseen : any (row_has_id id) rows ≡ false =
              ap (λ t. any (row_has_id t) rows) (sym is_id) ∙ d in
            let same : (x.sealed.key_version == old.key_version) ≡ true =
              (==_iff x.sealed.key_version old.key_version).1 (ap (λ s. s.key_version) is_old) in
            let current : (new_sealed.key_version == r.ring.current) ≡ true =
              (==_iff new_sealed.key_version r.ring.current).1 version in
            rw
              (
                hit,
                same,
                update-missing r id old.key_version new_sealed rows unseen,
                current,
                pending-missing rows unseen (ground arith),
              )
              refl
        | inr miss ↦
            let rest =
              written-pending old new_sealed rows ds (rw miss at h) version (ground arith) in
            rw (miss, rest) (ground arith)
      ]
