-- ===== src/Store/Reads.antt =====
-- Code that only reads: whatever it returns, the tables are what they were.
use lightweight_saas_backend.Prelude.{Bool-cases, arith, inl, inr, refl, ◌∙◌, ◌≡◌}
use lightweight_saas_backend.Store.{
  Db, M, Result, Session, continue_with, err, lift, map_error, masking, next_fails, ok, query,
  statement, written, ◌>>=◌,
}
use lightweight_saas_backend.Store.Laws.{IsAtomic}

abbrev pub Reads : {E A : Type 0} → M E A → Type 0
Reads {E} {A} m = (s : Session) → (m s).1.db ≡ s.db

pub lift-Reads : {E A : Type 0} (r : Result E A) → Reads (lift r)
lift-Reads r s = refl

module _ {E A : Type 0} where
  pub query-Reads : (fault : E) (read : Db → A) → Reads (query fault read)
  unfolding query statement written
  query-Reads fault read s = elim (Bool-cases (next_fails s.faults)) [ inl f ↦ rw f | inr f ↦ rw f ]

module _ {E F A : Type 0} where
  map_error-db : (f : E → F) (r : Result E A × Session) → (map_error f r).1.db ≡ r.1.db
  map_error-db f (ok a, s) = refl
  map_error-db f (err e, s) = refl

  pub masking-Reads : (f : E → F) (m : M E A) → Reads m → Reads (masking f m)
  masking-Reads f m h s = map_error-db f (m s) ∙ h s

  map_error-eq-ok :
      (f : E → F) (r : Result E A × Session) (t : Session) (a : A)
      → map_error f r ≡ (ok a, t)
      → r ≡ (ok a, t)
  map_error-eq-ok f (ok b, s) t a h = ground arith
  map_error-eq-ok f (err e, s) t a h = absurd (ground arith)

  pub masking-eq-ok :
      (f : E → F) (m : M E A) (s t : Session) (a : A) → masking f m s ≡ (ok a, t) → m s ≡ (ok a, t)
  masking-eq-ok f m s t a h = map_error-eq-ok f (m s) t a h

module _ {E A B : Type 0} where
  continue-Reads :
      (f : A → M E B) (r : Result E A × Session)
      → ((a : A) → Reads (f a))
      → (continue_with f r).1.db ≡ r.1.db
  continue-Reads f (ok a, s) h = h a s
  continue-Reads f (err e, s) h = refl

  pub >>=-Reads : (m : M E A) (f : A → M E B) → Reads m → ((a : A) → Reads (f a)) → Reads (m >>= f)
  >>=-Reads m f h k s = continue-Reads f (m s) k ∙ h s

  pub lift->>=-Reads :
      (r : Result E A) (f : A → M E B) → ((a : A) → Reads (f a)) → Reads (lift r >>= f)
  lift->>=-Reads (ok a) f h s = h a s
  lift->>=-Reads (err e) f h s = refl

  continue-atomic :
      (f : A → M E B) (r : Result E A × Session) (e : E)
      → ((a : A) → IsAtomic (f a))
      → (continue_with f r).0 ≡ err e
      → (continue_with f r).1.db ≡ r.1.db
  continue-atomic f (ok a, s) e h k = h a s e k
  continue-atomic f (err x, s) e h k = refl

  -- What comes before a transaction and only reads.
  pub Reads->>=-IsAtomic :
      (m : M E A) (f : A → M E B) → Reads m → ((a : A) → IsAtomic (f a)) → IsAtomic (m >>= f)
  Reads->>=-IsAtomic m f h k s e q = continue-atomic f (m s) e k q ∙ h s
