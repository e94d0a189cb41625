-- ===== src/Connection/Counted.antt =====
-- What the census of key versions counts, and what may be removed on its word.
use mathlib.Core.Path.{subst}
use lightweight_saas_backend.Prelude.{
  ==_iff, All, Bool, Bool-cases, List, [], all, ap, arith, false, inl, inr, length, ltb, not, refl,
  select, sym, true, ℕ, ◌&&◌, ◌+◌, ◌<◌, ◌==◌, ◌∙◌, ◌∷◌, ◌≡◌,
}
use lightweight_saas_backend.Connection.Census.{
  Census, census_of, need_of, ring_versions, rows_under, safe_to_remove, tally, total,
}
use lightweight_saas_backend.Connection.Model.{Row}
use lightweight_saas_backend.Secrets.{Keyring}

abbrev Above : ℕ → Census → Type 0
Above v = All (λ e. v < e.0)

abbrev Ascending : Census → Type 0
Ascending [] = Unit
Ascending ((v, n) ∷ c) = Above v c × Ascending c

Above-lower : (v w : ℕ) (c : Census) → v < w → Above w c → Above v c
Above-lower v w [] h a = tt
Above-lower v w ((x, n) ∷ c) h (a, rest) = (omega (arith, h, a), Above-lower v w c h rest)

tally-Above : (v w : ℕ) (c : Census) → v < w → Above v c → Above v (tally w c)
unfolding tally
tally-Above v w [] h a = (h, tt)
tally-Above v w ((x, n) ∷ c) h (a, rest) = elim (Bool-cases (w == x)) [
  | inl same ↦ rw same (a, rest)
  | inr differs ↦ elim (Bool-cases (ltb w x)) [
    | inl below ↦ rw (differs, below) (h, (a, rest))
    | inr beyond ↦ rw (differs, beyond) (a, tally-Above v w c h rest)
  ]
]

tally-Ascending : (w : ℕ) (c : Census) → Ascending c → Ascending (tally w c)
unfolding tally
tally-Ascending w [] a = (tt, tt)
tally-Ascending w ((x, n) ∷ c) (a, rest) = elim (Bool-cases (w == x)) [
  | inl same ↦ rw same (a, rest)
  | inr differs ↦ elim (Bool-cases (ltb w x)) [
    | inl below ↦
        let less : w < x = ground arith in
        rw (differs, below) ((less, Above-lower w x c less a), (a, rest))
    | inr beyond ↦
        let more : x < w = ground arith in
        rw (differs, beyond) (tally-Above x w c more a, tally-Ascending w c rest)
  ]
]

census_of-Ascending : (rows : List Row) → Ascending (census_of rows)
unfolding census_of
census_of-Ascending [] = tt
census_of-Ascending (r ∷ rows) =
    tally-Ascending r.sealed.key_version (census_of rows) (census_of-Ascending rows)

rows_under-Above : (v : ℕ) (c : Census) → Above v c → rows_under v c ≡ 0
unfolding rows_under
rows_under-Above v [] a = refl
rows_under-Above v ((x, n) ∷ c) (a, rest) = ground (arith, rows_under-Above v c rest)

abbrev one_if : Bool → ℕ
one_if true = 1
one_if false = 0

rows_under-tally :
    (v w : ℕ) (c : Census)
    → Ascending c
    → rows_under v (tally w c) ≡ one_if (v == w) + rows_under v c
unfolding rows_under tally
rows_under-tally v w [] a = ground arith
rows_under-tally v w ((x, n) ∷ c) (a, rest) = elim (Bool-cases (w == x)) [
  | inl same ↦ rw same (ground arith)
  | inr differs ↦ elim (Bool-cases (ltb w x)) [
    | inl below ↦
        rw (differs, below)
          (elim (Bool-cases (v == w)) [
            | inl is_w ↦
                let less : v < x = ground arith in
                ground (arith, rows_under-Above v c (Above-lower v x c less a))
            | inr not_w ↦ ground arith
          ])
    | inr beyond ↦ rw (differs, beyond) (ground (arith, rows_under-tally v w c rest))
  ]
]

-- The census counts each row under its version.
pub rows_under-census_of :
    (v : ℕ) (rows : List Row)
    → rows_under v (census_of rows) ≡ length (select (λ r. r.sealed.key_version == v) rows)
unfolding census_of rows_under
rows_under-census_of v [] = refl
rows_under-census_of v (r ∷ rows) =
    let counted_once =
      rows_under-tally v r.sealed.key_version (census_of rows) (census_of-Ascending rows) in
    let rest = rows_under-census_of v rows in ground (arith, counted_once, rest)

total-tally : (v : ℕ) (c : Census) → total (tally v c) ≡ 1 + total c
unfolding total tally
total-tally v [] = omega arith
total-tally v ((w, n) ∷ c) = ground (arith, total-tally v c)

-- No row is left out of the count.
pub total-census_of : (rows : List Row) → total (census_of rows) ≡ length rows
unfolding census_of total
total-census_of [] = refl
total-census_of (r ∷ rows) =
    omega (arith, total-tally r.sealed.key_version (census_of rows), total-census_of rows)

-- The rows that need a rotation and those that are current are all the rows.
pub need_of-total :
    (current : ℕ) (c : Census) → Ascending c → need_of current c + rows_under current c ≡ total c
unfolding need_of rows_under total
need_of-total current [] a = omega arith
need_of-total current ((v, n) ∷ c) (a, rest) = elim (Bool-cases (v == current)) [
  | inl same ↦
      let above =
        rows_under-Above current c (subst (λ w. Above w c) ((==_iff v current).0 same) a) in
      ground (arith, need_of-total current c rest, above)
  | inr differs ↦ ground (arith, need_of-total current c rest)
]

all-select :
    (p q : ℕ → Bool) (vs : List ℕ)
    → ((v : ℕ) → q v ≡ true → p v ≡ true)
    → all p (select q vs) ≡ true
all-select p q [] h = refl
all-select p q (v ∷ vs) h = elim (Bool-cases (q v)) [
  | inl kept ↦ rw (kept, h v kept) (all-select p q vs h)
  | inr gone ↦ rw gone (all-select p q vs h)
]

-- A version that is reported as safe to remove is not the current one, and no row of the table is
-- sealed under it.
pub safe_to_remove-unused :
    (ring : Keyring) (rows : List Row)
    → all
        (λ v. not (v == ring.current) && length (select (λ r. r.sealed.key_version == v) rows) == 0)
        (safe_to_remove ring (census_of rows))
      ≡ true
unfolding safe_to_remove
safe_to_remove-unused ring rows =
    all-select _ _ (ring_versions ring.keys)
      (λ v h. ap (λ n. not (v == ring.current) && n == 0) (sym (rows_under-census_of v rows)) ∙ h)
