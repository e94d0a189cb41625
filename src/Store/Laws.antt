-- ===== src/Store/Laws.antt =====
-- Statements and transactions: what an error leaves, and what a success was made of.
use mathlib.Core.Path.{subst}
use lightweight_saas_backend.Prelude.{
  Bool-cases, [], ap, arith, if◌then◌else◌, inl, inr, refl, sym, true, ◌++◌, ◌∷◌, ◌≡◌, ◌⊎◌,
}
use lightweight_saas_backend.Audit.{Event}
use lightweight_saas_backend.Store.{
  Db, M, Result, Session, Writer, commit, continue_with, err, fail, in_tx, later_faults, lift,
  next_fails, ok, pure, query, record_tx, release, savepoint, statement, written, ◌>>=◌,
}

-- An error leaves the tables as they were.
abbrev pub IsAtomic : {E A : Type 0} → M E A → Type 0
IsAtomic {E} m = (s : Session) (e : E) → (m s).0 ≡ err e → (m s).1.db ≡ s.db

module _ {E A : Type 0} where
  commit-atomic :
      (fault : E) (before : Db) (r : Result E A × Session) (e : E)
      → (commit fault before r).0 ≡ err e
      → (commit fault before r).1.db ≡ before
  unfolding commit
  commit-atomic fault before (err x, s) e h = refl
  commit-atomic fault before (ok a, s) e h = ground arith

  -- Whatever the transaction does and wherever it fails, COMMIT included.
  pub in_tx-IsAtomic : (fault : E) (body : M E A) → IsAtomic (in_tx fault body)
  unfolding in_tx
  in_tx-IsAtomic fault body s e h = elim (Bool-cases (next_fails s.faults)) [
    | inl f ↦ rw f
    | inr f ↦ rw f (
        commit-atomic fault s.db (body (record s { faults = later_faults s.faults })) e (rw f at h))
  ]

  pub fail-IsAtomic : (x : E) → IsAtomic {A = A} (fail x)
  fail-IsAtomic x s e h = refl

  pub pure-IsAtomic : (a : A) → IsAtomic {E = E} (pure a)
  pure-IsAtomic a s e h = refl

module _ {E A B : Type 0} where
  -- What comes before a transaction and touches no table.
  pub lift-IsAtomic :
      (r : Result E A) (f : A → M E B) → ((a : A) → IsAtomic (f a)) → IsAtomic (lift r >>= f)
  lift-IsAtomic (ok a) f h s e k = h a s e k
  lift-IsAtomic (err x) f h s e k = refl

  -- The parts of a success.
  pub >>=-eq-ok :
      (m : M E A) (f : A → M E B) (s t : Session) (b : B)
      → (m >>= f) s ≡ (ok b, t)
      → (a : A) × (u : Session) × (m s ≡ (ok a, u)) × (f a u ≡ (ok b, t))
  >>=-eq-ok m f s t b h = go (m s) refl h
    where
      go :
          (r : Result E A × Session)
          → m s ≡ r
          → continue_with f r ≡ (ok b, t)
          → (a : A) × (u : Session) × (m s ≡ (ok a, u)) × (f a u ≡ (ok b, t))
      go (ok a, u) e k = (a, u, e, k)
      go (err x, u) e k = absurd (ground arith)

  pub lift->>=-eq-ok :
      (r : Result E A) (f : A → M E B) (s t : Session) (b : B)
      → (lift r >>= f) s ≡ (ok b, t)
      → (a : A) × (r ≡ ok a) × (f a s ≡ (ok b, t))
  lift->>=-eq-ok (ok a) f s t b h = (a, refl, h)
  lift->>=-eq-ok (err x) f s t b h = absurd (ground arith)

module _ {E A : Type 0} where
  pub lift-eq-ok :
      (r : Result E A) (s t : Session) (a : A) → lift r s ≡ (ok a, t) → (r ≡ ok a) × (t ≡ s)
  lift-eq-ok r s t a h = (ground arith, ground arith)

  written-eq-ok :
      (s t : Session) (r : Result E (A × Db)) (a : A) → written s r ≡ (ok a, t) → r ≡ ok (a, t.db)
  unfolding written
  written-eq-ok s t (ok (b, db)) a h = ground arith
  written-eq-ok s t (err e) a h = absurd (ground arith)

  pub statement-eq-ok :
      (fault : E) (run : Db → Result E (A × Db)) (s t : Session) (a : A)
      → statement fault run s ≡ (ok a, t)
      → run s.db ≡ ok (a, t.db)
  unfolding statement
  statement-eq-ok fault run s t a h = elim (Bool-cases (next_fails s.faults)) [
    | inl f ↦ absurd (ground arith)
    | inr f ↦ written-eq-ok (record s { faults = later_faults s.faults }) t (run s.db) a (rw f at h)
  ]

  pub query-eq-ok :
      (fault : E) (read : Db → A) (s t : Session) (a : A)
      → query fault read s ≡ (ok a, t)
      → (read s.db ≡ a) × (t.db ≡ s.db)
  unfolding query
  query-eq-ok fault read s t a h =
      let e = statement-eq-ok fault (λ db. ok (read db, db)) s t a h in (ground arith, ground arith)

  commit-eq-ok :
      (fault : E) (before : Db) (r : Result E A × Session) (t : Session) (a : A)
      → commit fault before r ≡ (ok a, t)
      → (r.0 ≡ ok a) × (r.1.db ≡ t.db)
  unfolding commit
  commit-eq-ok fault before (err x, s) t a h = absurd (ground arith)
  commit-eq-ok fault before (ok b, s) t a h = (ground arith, ground arith)

  pub in_tx-eq-ok :
      (fault : E) (body : M E A) (s t : Session) (a : A)
      → in_tx fault body s ≡ (ok a, t)
      → (u : Session) × (body (record s { faults = later_faults s.faults }) ≡ (ok a, u))
        × (u.db ≡ t.db)
  unfolding in_tx
  in_tx-eq-ok fault body s t a h = elim (Bool-cases (next_fails s.faults)) [
    | inl f ↦ absurd (ground arith)
    | inr f ↦
        let s' = record s { faults = later_faults s.faults } in
        let k = commit-eq-ok fault s.db (body s') t a (rw f at h) in
        ((body s').1, λ i. (k.0 i, (body s').1), k.1)
  ]

  release-eq-ok :
      (before : Db) (r : Result E A × Session) (t : Session) (a : A)
      → release before r ≡ (ok a, t)
      → r ≡ (ok a, t)
  unfolding release
  release-eq-ok before (err x, s) t a h = absurd (ground arith)
  release-eq-ok before (ok b, s) t a h = h

  pub savepoint-eq-ok :
      (fault : E) (body : M E A) (s t : Session) (a : A)
      → savepoint fault body s ≡ (ok a, t)
      → body (record s { faults = later_faults s.faults }) ≡ (ok a, t)
  unfolding savepoint
  savepoint-eq-ok fault body s t a h = elim (Bool-cases (next_fails s.faults)) [
    | inl f ↦ absurd (ground arith)
    | inr f ↦
        release-eq-ok s.db (body (record s { faults = later_faults s.faults })) t a (rw f at h)
  ]

-- A property of the tables that every success keeps is kept.
pub IsAtomic-keeps :
    {E A : Type 0} (P : Db → Type 0) (m : M E A)
    → IsAtomic m
    → ((s t : Session) (a : A) → m s ≡ (ok a, t) → P s.db → P t.db)
    → (s : Session) → P s.db
    → P (m s).1.db
IsAtomic-keeps {E} {A} P m atomic keeps s h = go (m s) refl
  where
    go : (r : Result E A × Session) → m s ≡ r → P (m s).1.db
    go (ok a, t) e = subst (λ x. P x.1.db) (sym e) (keeps s t a e h)
    go (err x, t) e = subst P (sym (atomic s x (ap (λ r. r.0) e))) h

pub record_tx-eq-ok :
    {E : Type 0} (refused : E) (writer : Writer) (e : Event) (s t : Session)
    → record_tx refused writer e s ≡ (ok tt, t)
    → (writer e ≡ true) × (t.db ≡ record s.db { audit = s.db.audit ++ e ∷ [] })
unfolding record_tx
record_tx-eq-ok refused writer e s t h =
    let k =
      statement-eq-ok refused
        (λ db. if writer e then ok (tt, record db { audit = db.audit ++ e ∷ [] }) else err refused)
        s t tt h in
    (ground arith, ground arith)

-- Where the error of a statement comes from.
module _ {E A : Type 0} where
  written-eq-err :
      (s t : Session) (r : Result E (A × Db)) (e : E) → written s r ≡ (err e, t) → r ≡ err e
  unfolding written
  written-eq-err s t (ok (b, db)) e h = absurd (ground arith)
  written-eq-err s t (err x) e h = ground arith

  pub statement-eq-err :
      (fault : E) (run : Db → Result E (A × Db)) (s t : Session) (e : E)
      → statement fault run s ≡ (err e, t)
      → (e ≡ fault) ⊎ (run s.db ≡ err e)
  unfolding statement
  statement-eq-err fault run s t e h = elim (Bool-cases (next_fails s.faults)) [
    | inl f ↦ inl (ground arith)
    | inr f ↦
        inr
          (written-eq-err (record s { faults = later_faults s.faults }) t (run s.db) e (rw f at h))
  ]

  -- A query fails only by its own fault, and changes nothing.
  pub query-eq-err :
      (fault : E) (read : Db → A) (s t : Session) (e : E)
      → query fault read s ≡ (err e, t)
      → (e ≡ fault) × (t.db ≡ s.db)
  unfolding query statement written
  query-eq-err fault read s t e h = elim (Bool-cases (next_fails s.faults)) [
    | inl f ↦ (ground arith, ground arith)
    | inr f ↦ absurd (ground arith)
  ]
