-- ===== src/Connection/RotatedRow.antt =====
-- What the rotation of one row comes to.
use lightweight_saas_backend.Prelude.{
  Bool-cases, List, Option, any, ap, arith, find, if◌then◌else◌, inl, inr, none, refl, some, sym,
  true, ℕ, ◌==◌, ◌∙◌, ◌≡◌, ◌≢◌, ◌⊎◌,
}
use lightweight_saas_backend.Connection.Effects.{conns}
use lightweight_saas_backend.Connection.Model.{Row}
use lightweight_saas_backend.Connection.Repository.{row_has_id, sealed_of, update_rows}
use lightweight_saas_backend.Connection.Rotation.{
  Decision, Outcome, Rotator, after_read, already_current, apply_decision, decide_row, fail_with,
  failed, finish, is_failed, observed_version, opened_row, read_failed, read_locked, resealed,
  reseals, rotate_one, rotated, sealed_again, sealed_under, settled, write_failed, write_lost,
  write_row,
}
use lightweight_saas_backend.Connection.Service.{secret_aad}
use lightweight_saas_backend.Secrets.{Sealed, SecretError, open_sealed, seal}
use lightweight_saas_backend.Store.{Result, Session, err, later_faults, next_fails, ok}
use lightweight_saas_backend.Store.Laws.{
  query-eq-err, query-eq-ok, statement-eq-err, statement-eq-ok,
}
use lightweight_saas_backend.Text.{Text}

-- Nothing is written and the row failed or needed nothing, or the new value is in the table.
abbrev pub Settles : Rotator → Text → List Row → Outcome → List Row → Type 0
Settles r id rows outcome after =
    ((after ≡ rows)
      × ((is_failed outcome ≡ true)
          ⊎ (decide_row r id (sealed_of (find (row_has_id id) rows)) ≡ settled already_current)))
    ⊎ ((old new_sealed : Sealed) × (decide_row r id (sealed_of (find (row_has_id id) rows))
          ≡ reseals old new_sealed)
        × (after ≡ update_rows (sealed_under id old.key_version) (resealed new_sealed) rows))

decide_row-ne-rotated :
    (r : Rotator) (id : Text) (row : Option Sealed) → decide_row r id row ≢ settled rotated
unfolding decide_row opened_row sealed_again fail_with
decide_row-ne-rotated r id none h = absurd (ground arith)
decide_row-ne-rotated r id (some old) h = elim (Bool-cases (old.key_version == r.ring.current)) [
  | inl same ↦ absurd (ground arith)
  | inr other ↦ go (open_sealed r.aead r.ring old (secret_aad id)) (rw other at h)
]
  where
    sealing_one : (x : Result SecretError Sealed) → sealed_again id old x ≢ settled rotated
    sealing_one (err e) k = absurd (ground arith)
    sealing_one (ok v) k = absurd (ground arith)

    go : (x : Result SecretError (List ℕ)) → opened_row r id old x ≢ settled rotated
    go (err e) k = absurd (ground arith)
    go (ok p) k = sealing_one (seal r.aead r.ring (r.nonce id) p (secret_aad id)) k

write_row-eq-err :
    (id : Text) (old new_sealed : Sealed) (s t : Session) (e : Outcome)
    → write_row id old new_sealed s ≡ (err e, t)
    → is_failed e ≡ true
unfolding write_row fail_with
write_row-eq-err id old new_sealed s t e h =
    elim (statement-eq-err (fail_with id old.key_version write_failed) _ s t e h) [
      | inl fault ↦ ap is_failed fault
      | inr refused ↦ elim (Bool-cases (any (sealed_under id old.key_version) s.db.connections)) [
        | inl hit ↦ absurd (ground arith)
        | inr miss ↦
            let told : fail_with id old.key_version write_lost ≡ e = ground arith in
            ap is_failed (sym told)
      ]
    ]

write_row-eq-ok :
    (id : Text) (old new_sealed : Sealed) (s t : Session) (o : Outcome)
    → write_row id old new_sealed s ≡ (ok o, t)
    → (o ≡ rotated)
      × (t.db.connections
          ≡ update_rows (sealed_under id old.key_version) (resealed new_sealed) s.db.connections)
unfolding write_row
write_row-eq-ok id old new_sealed s t o h =
    let k = statement-eq-ok (fail_with id old.key_version write_failed) _ s t o h in
    elim (Bool-cases (any (sealed_under id old.key_version) s.db.connections)) [
      | inl hit ↦ (ground arith, ground arith)
      | inr miss ↦ absurd (ground arith)
    ]

module _ (r : Rotator) (id : Text) (s : Session) where
  found_sealed : Option Sealed
  found_sealed = sealed_of (find (row_has_id id) s.db.connections)

  -- The end of a transaction that wrote nothing.
  settled-Settles :
      (version : ℕ) (outcome : Outcome) (u : Session)
      → u.db ≡ s.db
      → (is_failed outcome ≡ true) ⊎ (decide_row r id found_sealed ≡ settled already_current)
      → let end = finish id s.db (version, (ok outcome, u)) in
        Settles r id s.db.connections end.0 end.1.db.connections
  unfolding finish found_sealed fail_with
  settled-Settles version outcome u same why = elim (Bool-cases (next_fails u.faults)) [
    | inl f ↦ rw f (
        inl (
          refl,
          inl (elim (Bool-cases (is_failed outcome)) [
            | inl bad ↦ rw bad bad
            | inr good ↦ rw good refl
          ]),
        ))
    | inr f ↦ rw f (inl (ap conns same, why))
  ]

  written-Settles :
      (version : ℕ) (old new_sealed : Sealed) (u : Session) (x : Result Outcome Outcome × Session)
      → u.db ≡ s.db
      → decide_row r id found_sealed ≡ reseals old new_sealed
      → write_row id old new_sealed u ≡ x
      → let end = finish id s.db (version, x) in
        Settles r id s.db.connections end.0 end.1.db.connections
  unfolding finish found_sealed fail_with
  written-Settles version old new_sealed u (err e, t) same decided h =
      inl (refl, inl (write_row-eq-err id old new_sealed u t e h))
  written-Settles version old new_sealed u (ok o, t) same decided h =
      let (is_rotated, rows) = write_row-eq-ok id old new_sealed u t o h in
      elim (Bool-cases (next_fails t.faults)) [
        | inl f ↦ rw f (
            inl (
              refl,
              inl (
                  ap (λ x. is_failed (if is_failed x then x else fail_with id version write_failed))
                    is_rotated),
            ))
        | inr f ↦ rw f (
            inr (
              old,
              new_sealed,
              decided,
              rows
                  ∙ ap
                      (λ db.
                        update_rows (sealed_under id old.key_version) (resealed new_sealed)
                          (conns db))
                      same,
            ))
      ]

  applied-Settles :
      (version : ℕ) (d : Decision) (u : Session)
      → u.db ≡ s.db
      → decide_row r id found_sealed ≡ d
      → let end = finish id s.db (version, apply_decision id d u) in
        Settles r id s.db.connections end.0 end.1.db.connections
  unfolding apply_decision found_sealed
  applied-Settles version (settled rotated) u same decided =
      absurd (decide_row-ne-rotated r id found_sealed decided)
  applied-Settles version (settled already_current) u same decided =
      settled-Settles version already_current u same (inr decided)
  applied-Settles version (settled (failed f)) u same decided =
      settled-Settles version (failed f) u same (inl refl)
  applied-Settles version (reseals old new_sealed) u same decided =
      written-Settles version old new_sealed u (write_row id old new_sealed u) same decided refl

  read-Settles :
      (u : Session) (x : Result Outcome (Option Sealed) × Session)
      → u.db ≡ s.db
      → read_locked id u ≡ x
      → let end = finish id s.db (after_read r id x) in
        Settles r id s.db.connections end.0 end.1.db.connections
  unfolding after_read read_locked found_sealed fail_with
  read-Settles u (err e, t) same h =
      let (fault, kept) =
        query-eq-err (fail_with id 0 read_failed)
          (λ db. sealed_of (find (row_has_id id) db.connections)) u t e h in
      settled-Settles 0 e t (kept ∙ same) (inl (ap is_failed fault))
  read-Settles u (ok row, t) same h =
      let (told, kept) =
        query-eq-ok (fail_with id 0 read_failed)
          (λ db. sealed_of (find (row_has_id id) db.connections)) u t row h in
      let seen_row : found_sealed ≡ row =
        ap (λ db. sealed_of (find (row_has_id id) (conns db))) (sym same) ∙ told in
      applied-Settles (observed_version row) (decide_row r id row) t (kept ∙ same)
        (ap (decide_row r id) seen_row)

-- The rotation of a row either writes nothing, because it failed or the row is gone or current, or
-- writes the value it decided on.
pub rotate_one-Settles :
    (r : Rotator) (id : Text) (s : Session)
    → Settles r id s.db.connections (rotate_one r id s).0 (rotate_one r id s).1.db.connections
unfolding rotate_one
rotate_one-Settles r id s = elim (Bool-cases (next_fails s.faults)) [
  | inl f ↦ rw f (inl (refl, inl refl))
  | inr f ↦ rw f (
      read-Settles r id s (record s { faults = later_faults s.faults })
        (read_locked id (record s { faults = later_faults s.faults })) refl refl)
]
