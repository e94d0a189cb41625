-- ===== src/Connection/RotatedTable.antt =====
-- No rotation loses a secret.
use lightweight_saas_backend.Prelude.{
  ==_iff, Bool-cases, List, Option, [], any, ap, arith, false, find, inl, inr, none, refl, some,
  sym, true, ℕ, ◌==◌, ◌∙◌, ◌∷◌, ◌≡◌, ◌⊎◌,
}
use lightweight_saas_backend.Connection.Model.{Row}
use lightweight_saas_backend.Connection.Repository.{row_has_id, sealed_of, update_rows}
use lightweight_saas_backend.Connection.Rotation.{
  Rotator, decide_row, opened_row, resealed, reseals, sealed_again, sealed_under,
}
use lightweight_saas_backend.Connection.Service.{secret_aad}
use lightweight_saas_backend.Connection.Table.{DistinctIds}
use lightweight_saas_backend.Secrets.{Sealed, SecretError, open_sealed, seal}
use lightweight_saas_backend.Store.{Result, err, ok}
use lightweight_saas_backend.Text.{Text, text_eq}
use lightweight_saas_backend.Text.Laws.{text_eq_iff}

-- The lists have the same length, and their elements are related one by one.
abbrev pub Pairwise : (Row → Row → Type 0) → List Row → List Row → Type 0
Pairwise R [] [] = Unit
Pairwise R [] (y ∷ ys) = ⊥
Pairwise R (x ∷ xs) [] = ⊥
Pairwise R (x ∷ xs) (y ∷ ys) = R x y × Pairwise R xs ys

-- What the runtime would do with the secret of a row.
abbrev pub opens_row : Rotator → Row → Result SecretError (List ℕ)
opens_row r x = open_sealed r.aead r.ring x.sealed (secret_aad x.conn.id)

-- The row is as it was, `updated_at` included, but for a secret that may have been sealed again under
-- the current key; it opens to the plaintext it opened to.
abbrev pub SameSecret : Rotator → Row → Row → Type 0
SameSecret r x y =
    (y.conn ≡ x.conn)
    × ((y.sealed ≡ x.sealed)
        ⊎ ((y.sealed.key_version ≡ r.ring.current)
            × ((plaintext : List ℕ) × (opens_row r x ≡ ok plaintext)
                × (opens_row r y ≡ ok plaintext))))

pub SameSecret-refl : (r : Rotator) (x : Row) → SameSecret r x x
SameSecret-refl r x = (refl, inl refl)

pub Pairwise-refl : (r : Rotator) (rows : List Row) → Pairwise (SameSecret r) rows rows
Pairwise-refl r [] = tt
Pairwise-refl r (x ∷ rows) = (SameSecret-refl r x, Pairwise-refl r rows)

same_opening :
    (r : Rotator) (x y : Row)
    → y.conn ≡ x.conn
    → y.sealed ≡ x.sealed
    → opens_row r y ≡ opens_row r x
same_opening r x y c s i = open_sealed r.aead r.ring (s i) (secret_aad (c i).id)

SameSecret-trans :
    (r : Rotator) (x y z : Row) → SameSecret r x y → SameSecret r y z → SameSecret r x z
SameSecret-trans r x y z (c, inl s) (d, inl t) = (d ∙ c, inl (t ∙ s))
SameSecret-trans r x y z (c, inl s) (d, inr (v, (p, o, q))) =
    (d ∙ c, inr (v, (p, sym (same_opening r x y c s) ∙ o, q)))
SameSecret-trans r x y z (c, inr (v, (p, o, q))) (d, inl t) =
    (d ∙ c, inr (ap (λ s. s.key_version) t ∙ v, (p, o, same_opening r y z d t ∙ q)))
SameSecret-trans r x y z (c, inr (v, (p, o, q))) (d, inr (w, (p', o', q'))) =
    let same : ok p' ≡ ok p = sym o' ∙ q in (d ∙ c, inr (w, (p, o, q' ∙ same)))

pub Pairwise-trans :
    (r : Rotator) (xs ys zs : List Row)
    → Pairwise (SameSecret r) xs ys
    → Pairwise (SameSecret r) ys zs
    → Pairwise (SameSecret r) xs zs
Pairwise-trans r [] [] [] h k = tt
Pairwise-trans r [] [] (z ∷ zs) h k = k
Pairwise-trans r [] (y ∷ ys) zs h k = absurd h
Pairwise-trans r (x ∷ xs) [] zs h k = absurd h
Pairwise-trans r (x ∷ xs) (y ∷ ys) [] h k = k
Pairwise-trans r (x ∷ xs) (y ∷ ys) (z ∷ zs) (h, hs) (k, ks) =
    (SameSecret-trans r x y z h k, Pairwise-trans r xs ys zs hs ks)

-- What a decision to write was made of.
pub decide_row-eq-reseals :
    (r : Rotator) (id : Text) (row : Option Sealed) (old new_sealed : Sealed)
    → decide_row r id row ≡ reseals old new_sealed
    → (row ≡ some old)
      × ((plaintext : List ℕ) × (open_sealed r.aead r.ring old (secret_aad id) ≡ ok plaintext)
          × (seal r.aead r.ring (r.nonce id) plaintext (secret_aad id) ≡ ok new_sealed))
unfolding decide_row opened_row sealed_again
decide_row-eq-reseals r id none old new_sealed h = absurd (ground arith)
decide_row-eq-reseals r id (some found_one) old new_sealed h =
    elim (Bool-cases (found_one.key_version == r.ring.current)) [
      | inl same ↦ absurd (ground arith)
      | inr other ↦ go (open_sealed r.aead r.ring found_one (secret_aad id)) refl (rw other at h)
    ]
  where
    sealing_one :
        (p : List ℕ) (x : Result SecretError Sealed)
        → seal r.aead r.ring (r.nonce id) p (secret_aad id) ≡ x
        → sealed_again id found_one x ≡ reseals old new_sealed
        → (found_one ≡ old) × (seal r.aead r.ring (r.nonce id) p (secret_aad id) ≡ ok new_sealed)
    sealing_one p (err e) q k = absurd (ground arith)
    sealing_one p (ok v) q k =
        let v_is : v ≡ new_sealed = ground arith in (ground arith, q ∙ ap ok v_is)

    go :
        (x : Result SecretError (List ℕ))
        → open_sealed r.aead r.ring found_one (secret_aad id) ≡ x
        → opened_row r id found_one x ≡ reseals old new_sealed
        → (some found_one ≡ some old)
          × ((plaintext : List ℕ) × (open_sealed r.aead r.ring old (secret_aad id) ≡ ok plaintext)
              × (seal r.aead r.ring (r.nonce id) plaintext (secret_aad id) ≡ ok new_sealed))
    go (err e) q k = absurd (ground arith)
    go (ok p) q k =
        let (same, sealed_ok) =
          sealing_one p (seal r.aead r.ring (r.nonce id) p (secret_aad id)) refl k in
        (
          ap some same,
          (p, ap (λ o. open_sealed r.aead r.ring o (secret_aad id)) (sym same) ∙ q, sealed_ok),
        )

-- Where no row has the id, the UPDATE finds none.
pub update-missing :
    (r : Rotator) (id : Text) (version : ℕ) (new_sealed : Sealed) (rows : List Row)
    → any (row_has_id id) rows ≡ false
    → update_rows (sealed_under id version) (resealed new_sealed) rows ≡ rows
update-missing r id version new_sealed [] h = refl
update-missing r id version new_sealed (x ∷ rows) h =
    let other : text_eq x.conn.id id ≡ false = ground arith in
    rw other (ap (λ xs. x ∷ xs) (update-missing r id version new_sealed rows (ground arith)))

-- The UPDATE touches the one row that was read.
pub update-SameSecret :
    (r : Rotator) (id : Text) (old new_sealed : Sealed) (rows : List Row)
    → DistinctIds rows
    → sealed_of (find (row_has_id id) rows) ≡ some old
    → ((x : Row) → x.conn.id ≡ id → x.sealed ≡ old → SameSecret r x (resealed new_sealed x))
    → Pairwise
        (SameSecret r)
        rows
        (update_rows (sealed_under id old.key_version) (resealed new_sealed) rows)
update-SameSecret r id old new_sealed [] d h same = tt
update-SameSecret r id old new_sealed (x ∷ rows) (d, ds) h same =
    elim (Bool-cases (text_eq x.conn.id id)) [
      | inl hit ↦
          let is_id = (text_eq_iff x.conn.id id).0 hit in
          let is_old : x.sealed ≡ old = ground arith in
          let unseen : any (row_has_id id) rows ≡ false =
            ap (λ t. any (row_has_id t) rows) (sym is_id) ∙ d in
          let version : (x.sealed.key_version == old.key_version) ≡ true =
            (==_iff x.sealed.key_version old.key_version).1 (ap (λ s. s.key_version) is_old) in
          rw (hit, version, update-missing r id old.key_version new_sealed rows unseen)
            (same x is_id is_old, Pairwise-refl r rows)
      | inr miss ↦
          rw miss
            (SameSecret-refl r x, update-SameSecret r id old new_sealed rows ds (rw miss at h) same)
    ]
