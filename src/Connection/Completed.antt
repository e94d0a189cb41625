-- ===== src/Connection/Completed.antt =====
-- A run of the rotation that reports no failure leaves nothing under an old key.
use mathlib.Core.Path.{subst}
use lightweight_saas_backend.Prelude.{
  Bool-cases, List, [], all, ap, arith, false, inl, inr, length, map, refl, select, sym, true, ℕ,
  ◌++◌, ◌==◌, ◌∙◌, ◌∷◌, ◌≡◌, ◌≢◌,
}
use lightweight_saas_backend.Connection.Effects.{conns}
use lightweight_saas_backend.Connection.Model.{Row}
use lightweight_saas_backend.Connection.Pending.{
  listed-pending, pending, untouched-pending, written-pending,
}
use lightweight_saas_backend.Connection.Rotated.{Settles-DistinctIds, started-Reads}
use lightweight_saas_backend.Connection.RotatedRow.{Settles, rotate_one-Settles}
use lightweight_saas_backend.Connection.RotatedTable.{decide_row-eq-reseals}
use lightweight_saas_backend.Connection.Rotation.{
  Failure, Outcome, Report, Rotator, RunEnd, already_current, complete, counted, failed, id_of,
  interrupted, is_failed, listed, not_current, not_listed, ran_through, rotate, rotate_from,
  rotate_listed, rotate_one, rotate_rows, rotated, started,
}
use lightweight_saas_backend.Connection.Service.{secret_aad}
use lightweight_saas_backend.Connection.Table.{DistinctIds}
use lightweight_saas_backend.Secrets.Laws.{IsAead, IsNonce, open_sealed-seal}
use lightweight_saas_backend.Store.{Result, Session, err, ok}
use lightweight_saas_backend.Store.Laws.{query-eq-err, query-eq-ok}
use lightweight_saas_backend.Text.{Text}

counted-complete :
    (report : Report) (o : Outcome) → complete (counted report o) ≡ true → complete report ≡ true
unfolding complete counted
counted-complete report rotated h = h
counted-complete report already_current h = h
counted-complete report (failed f) h = absurd (grew report.failures h)
  where
    grew : (fs : List Failure) → (length (fs ++ f ∷ []) == 0) ≢ true
    grew [] k = absurd (ground arith)
    grew (x ∷ fs) k = absurd (ground arith)

counted-fine :
    (report : Report) (o : Outcome) → complete (counted report o) ≡ true → is_failed o ≡ false
unfolding complete counted
counted-fine report rotated h = refl
counted-fine report already_current h = refl
counted-fine report (failed f) h = absurd (grew report.failures h)
  where
    grew : (fs : List Failure) → (length (fs ++ f ∷ []) == 0) ≢ true
    grew [] k = absurd (ground arith)
    grew (x ∷ fs) k = absurd (ground arith)

interrupted-ne : interrupted ≢ ran_through
interrupted-ne h = absurd (ground arith)

not_listed-ne : not_listed ≢ ran_through
not_listed-ne h = absurd (ground arith)

all-pending-nil :
    (current : ℕ) (rows : List Row)
    → all (pending current []) rows ≡ all (λ x. x.sealed.key_version == current) rows
all-pending-nil current [] = refl
all-pending-nil current (x ∷ rows) = ground (arith, all-pending-nil current rows)

listed-eq-err :
    (current : ℕ) (s t : Session) (e : RunEnd) → listed current s ≡ (err e, t) → e ≡ not_listed
unfolding listed
listed-eq-err current s t e h = (query-eq-err not_listed _ s t e h).0

listed-eq-ok :
    (current : ℕ) (s t : Session) (ids : List Text)
    → listed current s ≡ (ok ids, t)
    → (ids ≡ map id_of (select (not_current current) s.db.connections)) × (t.db ≡ s.db)
unfolding listed
listed-eq-ok current s t ids h =
    let (told, same) =
      query-eq-ok not_listed (λ db. map id_of (select (not_current current) db.connections)) s t ids
        h in
    (sym told, same)

started-eq-err :
    (current : ℕ) (s : Session) (e : RunEnd) → (started current s).0 ≡ err e → e ≡ not_listed
unfolding started
started-eq-err current s e h =
    (query-eq-err not_listed _ s (started current s).1 e (λ i. (h i, (started current s).1))).0

failures-kept :
    (r : Rotator) (ids : List Text) (report : Report) (s : Session)
    → complete (rotate_rows r ids report s).0 ≡ true
    → complete report ≡ true
unfolding rotate_rows
failures-kept r [] report s h = h
failures-kept r (id ∷ ids) report s h = elim (Bool-cases (r.cancelled id)) [
  | inl stop ↦ rw stop at h
  | inr onward ↦
      let one = rotate_one r id s in
      counted-complete report one.0
        (failures-kept r ids (counted report one.0) one.1 (rw onward at h))
]

module _ (r : Rotator) (laws : IsAead r.aead)
    (fits : (id : Text) → IsNonce r.aead (r.nonce id)) where
  Settles-pending :
      (id : Text) (ids : List Text) (outcome : Outcome) (rows later : List Row)
      → DistinctIds rows
      → is_failed outcome ≡ false
      → Settles r id rows outcome later
      → all (pending r.ring.current (id ∷ ids)) rows ≡ true
      → all (pending r.ring.current ids) later ≡ true
  Settles-pending id ids outcome rows later d fine (inl (same, inl bad)) h = absurd (ground arith)
  Settles-pending id ids outcome rows later d fine (inl (same, inr decided)) h =
      ap (all (pending r.ring.current ids)) same ∙ untouched-pending r id ids rows d decided h
  Settles-pending id ids outcome rows later d fine (inr (old, new_sealed, decided, now)) h =
      let (row, (p, _, seals)) = decide_row-eq-reseals r id _ old new_sealed decided in
      let (version, _) =
        open_sealed-seal r.aead r.ring r.ring (r.nonce id) p (secret_aad id) new_sealed laws
          (fits id) seals refl in
      ap (all (pending r.ring.current ids)) now
      ∙ written-pending r id ids old new_sealed rows d row version h

  rotate_rows-pending :
      (ids : List Text) (report : Report) (s : Session)
      → DistinctIds s.db.connections
      → all (pending r.ring.current ids) s.db.connections ≡ true
      → (rotate_rows r ids report s).1.0 ≡ ran_through
      → complete (rotate_rows r ids report s).0 ≡ true
      → all (pending r.ring.current []) (rotate_rows r ids report s).1.1.db.connections ≡ true
  unfolding rotate_rows
  rotate_rows-pending [] report s d h ran fine = h
  rotate_rows-pending (id ∷ ids) report s d h ran fine = elim (Bool-cases (r.cancelled id)) [
    | inl stop ↦ absurd (interrupted-ne (rw stop at ran))
    | inr onward ↦
        let one = rotate_one r id s in
        let settles = rotate_one-Settles r id s in
        let rest_fine = rw onward at fine in
        let good =
          counted-fine report one.0 (failures-kept r ids (counted report one.0) one.1 rest_fine) in
        rw onward (
          rotate_rows-pending ids (counted report one.0) one.1
            (Settles-DistinctIds r laws fits id one.0 s.db.connections one.1.db.connections d
              settles)
            (Settles-pending id ids one.0 s.db.connections one.1.db.connections d good settles h)
            (rw onward at ran) rest_fine)
  ]

  -- A run of the rotation that goes through all its rows and reports no failure: every secret of the
  -- table is sealed under the current key. The ids are distinct; AES-GCM opens what it sealed, and no
  -- ciphertext is empty; the nonces have the length asked for.
  pub rotate-complete :
      (s : Session)
      → DistinctIds s.db.connections
      → (rotate r s).1.0 ≡ ran_through
      → complete (rotate r s).0 ≡ true
      → all (λ x. x.sealed.key_version == r.ring.current) (rotate r s).1.1.db.connections ≡ true
  unfolding rotate rotate_from rotate_listed
  rotate-complete s d = from (listed r.ring.current s) refl
    where
      AllCurrent : Report × (RunEnd × Session) → Type 0
      AllCurrent x =
          x.1.0 ≡ ran_through
          → complete x.0 ≡ true
          → all (λ y. y.sealed.key_version == r.ring.current) x.1.1.db.connections ≡ true

      loop :
          (ids : List Text) (x : Result RunEnd Report × Session)
          → x.1.db ≡ s.db
          → ((e : RunEnd) → x.0 ≡ err e → e ≡ not_listed)
          → ids ≡ map id_of (select (not_current r.ring.current) s.db.connections)
          → AllCurrent (rotate_listed r ids x)
      loop ids (err e, u) same why told ran fine = absurd (not_listed-ne (sym (why e refl) ∙ ran))
      loop ids (ok report, u) same why told ran fine = ground (
        arith,
        all-pending-nil r.ring.current (rotate_rows r ids report u).1.1.db.connections,
        rotate_rows-pending ids report u (subst (λ db. DistinctIds (conns db)) (sym same) d)
            (ap (λ db. all (pending r.ring.current ids) (conns db)) same
              ∙ ap (λ xs. all (pending r.ring.current xs) s.db.connections) told
              ∙ listed-pending r.ring.current s.db.connections)
            ran fine,
      )

      from :
          (x : Result RunEnd (List Text) × Session)
          → listed r.ring.current s ≡ x
          → AllCurrent (rotate_from r x)
      from (err e, u) h ran fine =
          absurd (not_listed-ne (sym (listed-eq-err r.ring.current s u e h) ∙ ran))
      from (ok ids, u) h ran fine =
          let (told, same) = listed-eq-ok r.ring.current s u ids h in
          loop ids (started r.ring.current u) (started-Reads r.ring.current u ∙ same)
            (λ e k. started-eq-err r.ring.current u e k) told ran fine
