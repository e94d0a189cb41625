-- ===== src/ProviderCache/Laws.antt =====
-- The bound, the one generation of a connection, and what a lookup finds.
use mathlib.Core.Path.{subst}
use lightweight_saas_backend.Prelude.{
  All, All-find, Bool, Bool-cases, List, Option, [], ap, arith, false, find, if◌then◌else◌, inl,
  inr, length, length-take-le, none, not, refl, select, some, suc, sym, take, true, zero, ℕ, ◌+◌,
  ◌-◌, ◌∙◌, ◌∷◌, ◌≡◌, ◌≢◌, ◌≤◌,
}
use lightweight_saas_backend.ProviderCache.{
  Entry, ProviderCache, get, has_key, hit, insert, of_connection, put, replaced, without,
}
use lightweight_saas_backend.Text.{Text}
use lightweight_saas_backend.Text.Laws.{text_eq_iff}

pub if_keeps :
    {A : Type 0} (Q : A → Type 0) (b : Bool) (x y : A) → Q x → Q y → Q (if b then x else y)
if_keeps Q true x y h k = h
if_keeps Q false x y h k = k

module _ {P : Type 0} where
  -- No entry of the list belongs to the connection.
  abbrev pub Absent : Text → List (Entry P) → Type 0
  Absent id = All (λ e. e.connection_id ≢ id)

  -- No connection has two entries.
  abbrev pub OneGeneration : List (Entry P) → Type 0
  OneGeneration [] = Unit
  OneGeneration (e ∷ es) = Absent e.connection_id es × OneGeneration es

  -- The invariant of an enabled cache.
  pub record IsCache (c : ProviderCache P) : Type 0 where
    pub bounded : length c.order ≤ c.max
    pub single : OneGeneration c.order

  without-Absent : (id key : Text) (es : List (Entry P)) → Absent id es → Absent id (without key es)
  unfolding without
  without-Absent id key [] h = tt
  without-Absent id key (e ∷ es) (h, hs) = elim (Bool-cases (has_key key e)) [
    | inl same ↦ rw same hs
    | inr other ↦ rw other (h, without-Absent id key es hs)
  ]

  without-OneGeneration :
      (key : Text) (es : List (Entry P)) → OneGeneration es → OneGeneration (without key es)
  unfolding without
  without-OneGeneration key [] h = tt
  without-OneGeneration key (e ∷ es) (h, hs) = elim (Bool-cases (has_key key e)) [
    | inl same ↦ rw same hs
    | inr other ↦
        rw other (without-Absent e.connection_id key es h, without-OneGeneration key es hs)
  ]

  -- Moving the element of a key to the front.
  moved-OneGeneration :
      (key : Text) (es : List (Entry P)) (e : Entry P)
      → OneGeneration es
      → find (has_key key) es ≡ some e
      → (e.key ≡ key)
        × Absent e.connection_id (without key es)
        × (length (without key es) + 1 ≡ length es)
  unfolding without
  moved-OneGeneration key [] e h k = absurd (ground arith)
  moved-OneGeneration key (x ∷ es) e (h, hs) k = elim (Bool-cases (has_key key x)) [
    | inl same ↦
        let is_e : x ≡ e = ground arith in
        (
          ap (λ y. y.key) (sym is_e) ∙ (text_eq_iff x.key key).0 same,
          rw same (subst (λ y. Absent y.connection_id es) is_e h),
          rw same (ground arith),
        )
    | inr other ↦
        let (key_eq, absent, long) = moved-OneGeneration key es e hs (rw other at k) in
        (
          key_eq,
          rw other (
            (λ q.
                (All-find (λ y. y.connection_id ≢ x.connection_id) (has_key key) es e h
                    (rw other at k)).0
                  (sym q)),
            absent,
          ),
          rw other (omega (arith, long)),
        )
  ]

  select-Absent :
      (id other : Text) (es : List (Entry P))
      → Absent id es
      → Absent id (select (λ x. not (of_connection other x)) es)
  select-Absent id other [] h = tt
  select-Absent id other (e ∷ es) (h, hs) = elim (Bool-cases (of_connection other e)) [
    | inl same ↦ rw same (select-Absent id other es hs)
    | inr differs ↦ rw differs (h, select-Absent id other es hs)
  ]

  select-OneGeneration :
      (id : Text) (es : List (Entry P))
      → OneGeneration es
      → Absent id (select (λ x. not (of_connection id x)) es)
        × OneGeneration (select (λ x. not (of_connection id x)) es)
  select-OneGeneration id [] h = (tt, tt)
  select-OneGeneration id (e ∷ es) (h, hs) =
      let (absent, single) = select-OneGeneration id es hs in
      elim (Bool-cases (of_connection id e)) [
        | inl same ↦ rw same (absent, single)
        | inr differs ↦ rw differs (
            (
              ((λ q. ground (arith, (text_eq_iff e.connection_id id).1 q)), absent),
              (select-Absent e.connection_id id es h, single),
            ))
      ]

  take-Absent : (id : Text) (n : ℕ) (es : List (Entry P)) → Absent id es → Absent id (take n es)
  take-Absent id zero es h = tt
  take-Absent id (suc n) [] h = tt
  take-Absent id (suc n) (e ∷ es) (h, hs) = (h, take-Absent id n es hs)

  take-OneGeneration : (n : ℕ) (es : List (Entry P)) → OneGeneration es → OneGeneration (take n es)
  take-OneGeneration zero es h = tt
  take-OneGeneration (suc n) [] h = tt
  take-OneGeneration (suc n) (e ∷ es) (h, hs) =
      (take-Absent e.connection_id n es h, take-OneGeneration n es hs)

  moved-IsCache :
      (c : ProviderCache P) (e : Entry P) (key : Text) (f : P → P)
      → IsCache c
      → find (has_key key) c.order ≡ some e
      → IsCache (record c { order = record e { provider = f e.provider } ∷ without e.key c.order })
  moved-IsCache c e key f h k =
      let (key_eq, absent, long) = moved-OneGeneration key c.order e h.single k in
      record {
        bounded = rw key_eq (omega (arith, long, h.bounded));
        single = rw key_eq (absent, without-OneGeneration key c.order h.single);
      }

  hit-IsCache :
      (c : ProviderCache P) (key : Text) (o : Option (Entry P))
      → IsCache c
      → find (has_key key) c.order ≡ o
      → IsCache (hit c o).0
  unfolding hit
  hit-IsCache c key none h k = h
  hit-IsCache c key (some e) h k = moved-IsCache c e key (λ x. x) h k

  insert-IsCache : (c : ProviderCache P) (e : Entry P) → IsCache c → IsCache (insert e c)
  unfolding insert
  insert-IsCache c e h =
      let kept = select (λ x. not (of_connection e.connection_id x)) c.order in
      record {
        bounded = length-take-le c.max (e ∷ kept);
        single =
            take-OneGeneration c.max (e ∷ kept)
              (select-OneGeneration e.connection_id c.order h.single);
      }

  replaced-IsCache :
      (c : ProviderCache P) (connection_id key : Text) (p : P) (o : Option (Entry P))
      → IsCache c
      → find (has_key key) c.order ≡ o
      → IsCache (replaced connection_id key p c o)
  unfolding replaced
  replaced-IsCache c connection_id key p none h k =
      insert-IsCache c (record { key = key; connection_id = connection_id; provider = p }) h
  replaced-IsCache c connection_id key p (some e) h k = moved-IsCache c e key (λ _. p) h k

  -- `get` and `put` keep a cache within its bound and free of a second entry for a connection,
  -- whatever is put under which key.
  pub operations-IsCache :
      (c : ProviderCache P) (connection_id key : Text) (p : P)
      → IsCache c
      → IsCache (get key c).0 × IsCache (put connection_id key p c)
  unfolding get put
  operations-IsCache c connection_id key p h =
      let o = find (has_key key) c.order in
      (
        if_keeps (λ x. IsCache x.0) c.enabled (hit c o) (c, none) (hit-IsCache c key o h refl) h,
        if_keeps IsCache c.enabled (replaced connection_id key p c o) c
            (replaced-IsCache c connection_id key p o h refl) h,
      )

  -- The front of the list is what a lookup of its key finds.
  get-front :
      (c : ProviderCache P) (e : Entry P) (es : List (Entry P)) (key : Text)
      → c.enabled ≡ true
      → c.order ≡ e ∷ es
      → e.key ≡ key
      → (get key c).1 ≡ some e.provider
  unfolding get hit
  get-front c e es key on first same = rw on (rw first (rw ((text_eq_iff e.key key).1 same) refl))

  take_first :
      (n : ℕ) (e : Entry P) (es : List (Entry P)) → 1 ≤ n → take n (e ∷ es) ≡ e ∷ take (n - 1) es
  take_first zero e es h = absurd (ground arith)
  take_first (suc n) e es h = ap (λ k. e ∷ take k es) (omega arith)

  found_key :
      (key : Text) (es : List (Entry P)) (e : Entry P)
      → find (has_key key) es ≡ some e
      → e.key ≡ key
  found_key key [] e h = absurd (ground arith)
  found_key key (x ∷ es) e h = elim (Bool-cases (has_key key x)) [
    | inl same ↦
        let is_e : x ≡ e = ground arith in
        ap (λ y. y.key) (sym is_e) ∙ (text_eq_iff x.key key).0 same
    | inr other ↦ found_key key es e (rw other at h)
  ]

  replaced-enabled :
      (c : ProviderCache P) (connection_id key : Text) (p : P) (o : Option (Entry P))
      → (replaced connection_id key p c o).enabled ≡ c.enabled
  unfolding replaced insert
  replaced-enabled c connection_id key p none = refl
  replaced-enabled c connection_id key p (some e) = refl

  replaced-front :
      (c : ProviderCache P) (connection_id key : Text) (p : P) (o : Option (Entry P))
      → find (has_key key) c.order ≡ o
      → 1 ≤ c.max
      → (e : Entry P) × (es : List (Entry P)) × ((replaced connection_id key p c o).order ≡ e ∷ es)
        × (e.key ≡ key)
        × (e.provider ≡ p)
  unfolding replaced insert
  replaced-front c connection_id key p none k roomy =
      let e : Entry P = record { key = key; connection_id = connection_id; provider = p } in
      let kept = select (λ x. not (of_connection connection_id x)) c.order in
      (e, take (c.max - 1) kept, take_first c.max e kept roomy, refl, refl)
  replaced-front c connection_id key p (some e) k roomy =
      (record e { provider = p }, without e.key c.order, refl, found_key key c.order e k, refl)

  -- What was put under a key is what the next lookup of it finds, whatever had to be evicted; the
  -- cache is enabled and has room for one entry.
  pub get-put :
      (c : ProviderCache P) (connection_id key : Text) (p : P)
      → c.enabled ≡ true
      → 1 ≤ c.max
      → (get key (put connection_id key p c)).1 ≡ some p
  unfolding put
  get-put c connection_id key p on roomy =
      let (e, es, first, same, is_p) =
        replaced-front c connection_id key p (find (has_key key) c.order) refl roomy in
      ap
        (λ b.
          (get key
            (if b then replaced connection_id key p c (find (has_key key) c.order) else c)).1)
        on
      ∙ get-front (replaced connection_id key p c (find (has_key key) c.order)) e es key
          (replaced-enabled c connection_id key p (find (has_key key) c.order) ∙ on) first same
      ∙ ap some is_p
