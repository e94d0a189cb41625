-- ===== src/Connection/Rotated.antt =====
-- What a run of the rotation comes to.
use mathlib.Core.Path.{subst}
use lightweight_saas_backend.Prelude.{
  Bool, Bool-cases, List, Option, [], ap, inl, inr, map, refl, select, sym, ℕ, ◌∙◌, ◌∷◌, ◌≡◌,
}
use lightweight_saas_backend.Connection.Changes.{changing-IsTame}
use lightweight_saas_backend.Connection.Effects.{conns}
use lightweight_saas_backend.Connection.Model.{Row}
use lightweight_saas_backend.Connection.Repository.{changing}
use lightweight_saas_backend.Connection.RotatedRow.{Settles, rotate_one-Settles}
use lightweight_saas_backend.Connection.RotatedTable.{
  Pairwise, Pairwise-refl, Pairwise-trans, SameSecret, decide_row-eq-reseals, update-SameSecret,
}
use lightweight_saas_backend.Connection.Rotation.{
  Outcome, Report, Rotator, RunEnd, counted, decide_row, id_of, listed, not_current, not_listed,
  resealed, reseals, rotate, rotate_from, rotate_listed, rotate_one, rotate_rows, sealed_under,
  started,
}
use lightweight_saas_backend.Connection.Service.{secret_aad}
use lightweight_saas_backend.Connection.Table.{DistinctIds, IsTame, map-DistinctIds}
use lightweight_saas_backend.Secrets.{Sealed, open_sealed}
use lightweight_saas_backend.Secrets.Laws.{IsAead, IsNonce, open_sealed-seal}
use lightweight_saas_backend.Store.{Result, Session, err, ok}
use lightweight_saas_backend.Store.Reads.{Reads, query-Reads}
use lightweight_saas_backend.Text.{Text}

pub listed-Reads : (current : ℕ) → Reads (listed current)
unfolding listed
listed-Reads current =
    query-Reads not_listed (λ db. map id_of (select (not_current current) db.connections))

pub started-Reads : (current : ℕ) → Reads (started current)
unfolding started
started-Reads current = query-Reads not_listed _

-- What the rotation relies on: AES-GCM, nonces of the length asked for, and nothing else.
module _ (r : Rotator) (laws : IsAead r.aead)
    (fits : (id : Text) → IsNonce r.aead (r.nonce id)) where
  resealed-SameSecret :
      (id : Text) (old new_sealed : Sealed) (row : Option Sealed)
      → decide_row r id row ≡ reseals old new_sealed
      → (x : Row) → x.conn.id ≡ id
      → x.sealed ≡ old
      → SameSecret r x (resealed new_sealed x)
  unfolding resealed
  resealed-SameSecret id old new_sealed row decided x is_id is_old =
      let (_, (p, opens, seals)) = decide_row-eq-reseals r id row old new_sealed decided in
      let (version, again) =
        open_sealed-seal r.aead r.ring r.ring (r.nonce id) p (secret_aad id) new_sealed laws
          (fits id) seals refl in
      (
        refl,
        inr (
          version,
          (
            p,
            (λ i. open_sealed r.aead r.ring (is_old i) (secret_aad (is_id i))) ∙ opens,
            ap (λ t. open_sealed r.aead r.ring new_sealed (secret_aad t)) is_id ∙ again,
          ),
        ),
      )

  Settles-SameSecret :
      (id : Text) (outcome : Outcome) (rows after : List Row)
      → DistinctIds rows
      → Settles r id rows outcome after
      → Pairwise (SameSecret r) rows after
  Settles-SameSecret id outcome rows after d (inl (same, why)) =
      subst (Pairwise (SameSecret r) rows) (sym same) (Pairwise-refl r rows)
  Settles-SameSecret id outcome rows after d (inr (old, new_sealed, decided, now)) =
      let (row, _) = decide_row-eq-reseals r id _ old new_sealed decided in
      subst (Pairwise (SameSecret r) rows) (sym now) (
        update-SameSecret r id old new_sealed rows d row
          (resealed-SameSecret id old new_sealed _ decided))

  resealed-IsTame :
      (guard : Row → Bool) (new_sealed : Sealed) → IsTame (changing guard (resealed new_sealed))
  unfolding resealed
  resealed-IsTame guard new_sealed =
      changing-IsTame guard (resealed new_sealed) (λ x. refl) (λ x. refl) (λ x hit w. w)

  pub Settles-DistinctIds :
      (id : Text) (outcome : Outcome) (rows after : List Row)
      → DistinctIds rows
      → Settles r id rows outcome after
      → DistinctIds after
  Settles-DistinctIds id outcome rows after d (inl (same, why)) = subst DistinctIds (sym same) d
  Settles-DistinctIds id outcome rows after d (inr (old, new_sealed, decided, now)) =
      subst DistinctIds (sym now) (
        map-DistinctIds (changing (sealed_under id old.key_version) (resealed new_sealed))
          (resealed-IsTame (sealed_under id old.key_version) new_sealed) rows d)

  rotate_rows-SameSecret :
      (ids : List Text) (report : Report) (s : Session)
      → DistinctIds s.db.connections
      → Pairwise (SameSecret r) s.db.connections (rotate_rows r ids report s).1.1.db.connections
  unfolding rotate_rows
  rotate_rows-SameSecret [] report s d = Pairwise-refl r s.db.connections
  rotate_rows-SameSecret (id ∷ ids) report s d = elim (Bool-cases (r.cancelled id)) [
    | inl stop ↦ rw stop (Pairwise-refl r s.db.connections)
    | inr onward ↦
        let one = rotate_one r id s in
        let settles = rotate_one-Settles r id s in
        rw onward (
          Pairwise-trans r s.db.connections one.1.db.connections
            (rotate_rows r ids (counted report one.0) one.1).1.1.db.connections
            (Settles-SameSecret id one.0 s.db.connections one.1.db.connections d settles)
            (rotate_rows-SameSecret ids (counted report one.0) one.1
              (Settles-DistinctIds id one.0 s.db.connections one.1.db.connections d settles)))
  ]

  -- A run of the rotation, in any session, whichever statements fail, and wherever it is cancelled:
  -- every row that was there is there, with the same connection, `updated_at` included, and its
  -- secret is as it was, or is sealed under the current key and opens to the plaintext to which it
  -- opened before. The ids are distinct; AES-GCM opens what it sealed, and no ciphertext is empty;
  -- the nonces have the length asked for.
  pub rotate-SameSecret :
      (s : Session)
      → DistinctIds s.db.connections
      → Pairwise (SameSecret r) s.db.connections (rotate r s).1.1.db.connections
  unfolding rotate rotate_from rotate_listed
  rotate-SameSecret s d = from (listed r.ring.current s) (listed-Reads r.ring.current s)
    where
      loop :
          (ids : List Text) (x : Result RunEnd Report × Session)
          → x.1.db ≡ s.db
          → Pairwise (SameSecret r) s.db.connections (rotate_listed r ids x).1.1.db.connections
      loop ids (err e, u) same =
          subst (λ db. Pairwise (SameSecret r) s.db.connections (conns db)) (sym same)
            (Pairwise-refl r s.db.connections)
      loop ids (ok report, u) same =
          subst
            (λ rows. Pairwise (SameSecret r) rows (rotate_rows r ids report u).1.1.db.connections)
            (ap conns same)
            (rotate_rows-SameSecret ids report u
              (subst (λ db. DistinctIds (conns db)) (sym same) d))

      from :
          (x : Result RunEnd (List Text) × Session)
          → x.1.db ≡ s.db
          → Pairwise (SameSecret r) s.db.connections (rotate_from r x).1.1.db.connections
      from (err e, u) same =
          subst (λ db. Pairwise (SameSecret r) s.db.connections (conns db)) (sym same)
            (Pairwise-refl r s.db.connections)
      from (ok ids, u) same =
          loop ids (started r.ring.current u) (started-Reads r.ring.current u ∙ same)
