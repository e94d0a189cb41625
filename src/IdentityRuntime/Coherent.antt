-- ===== src/IdentityRuntime/Coherent.antt =====
-- internal/identityruntime/cache.go with resolver.go: the cache holds what the builder built.
use mathlib.Core.Path.{subst}
use lightweight_saas_backend.Prelude.{
  ==_refl, All, All-find, Bool, Bool-cases, List, Option, [], any, ap, arith, false, find,
  if◌then◌else◌, inl, inr, none, refl, select, some, suc, sym, take, zero, ℕ, ◌++◌, ◌==◌, ◌∙◌, ◌∷◌,
  ◌≡◌,
}
use lightweight_saas_backend.Connection.Model.{Connection}
use lightweight_saas_backend.IdentityRuntime.Resolver.{Resolver, cache_key}
use lightweight_saas_backend.ProviderCache.{
  Entry, ProviderCache, get, has_key, hit, insert, put, replaced, without,
}
use lightweight_saas_backend.ProviderCache.Laws.{if_keeps}
use lightweight_saas_backend.Store.{ok}
use lightweight_saas_backend.Text.{Text}
use lightweight_saas_backend.Text.Laws.{text_eq_iff}

-- The separator of a cache key stands in no id.
abbrev pub IsPlain : Text → Type 0
IsPlain id = any (λ c. c == b'@') id ≡ false

key-cons : (a b : ℕ) (x y : Text) → a ∷ x ≡ b ∷ y → (a ≡ b) × (x ≡ y)
key-cons a b x y h = (ground arith, ground arith)

-- A key tells the id.
same_id : (x y u v : Text) → IsPlain x → IsPlain y → x ++ b'@' ∷ u ≡ y ++ b'@' ∷ v → x ≡ y
same_id [] [] u v hx hy h = refl
same_id [] (b ∷ y) u v hx hy h =
    absurd (ground (arith, ==_refl b'@', key-cons b'@' b u (y ++ b'@' ∷ v) h))
same_id (a ∷ x) [] u v hx hy h =
    absurd (ground (arith, ==_refl b'@', key-cons a b'@' (x ++ b'@' ∷ u) v h))
same_id (a ∷ x) (b ∷ y) u v hx hy h =
    let (heads, tails) = key-cons a b (x ++ b'@' ∷ u) (y ++ b'@' ∷ v) h in
    let rest = same_id x y u v (ground arith) (ground arith) tails in
    ap (λ c. c ∷ x) heads ∙ ap (λ t. b ∷ t) rest

module _ {P : Type 0} (r : Resolver P) where
  -- The provider was built for the connection of the id, in the version of the key, from a secret.
  abbrev pub BuiltFor : Text → Text → P → Type 0
  BuiltFor key id p =
      (c : Connection) × (secret : List ℕ) × (c.id ≡ id)
      × IsPlain c.id
      × (cache_key r c ≡ key)
      × (r.build c secret ≡ ok (some p))

  abbrev IsBuilt : Entry P → Type 0
  IsBuilt e = BuiltFor e.key e.connection_id e.provider

  -- Every entry of the cache was built for the connection under which it stands.
  abbrev pub IsCoherent : ProviderCache P → Type 0
  IsCoherent cache = All IsBuilt cache.order

  without-IsBuilt :
      (key : Text) (es : List (Entry P)) → All IsBuilt es → All IsBuilt (without key es)
  unfolding without
  without-IsBuilt key [] h = tt
  without-IsBuilt key (e ∷ es) (h, hs) = elim (Bool-cases (has_key key e)) [
    | inl same ↦ rw same hs
    | inr other ↦ rw other (h, without-IsBuilt key es hs)
  ]

  select-IsBuilt :
      (keep : Entry P → Bool) (es : List (Entry P)) → All IsBuilt es → All IsBuilt (select keep es)
  select-IsBuilt keep [] h = tt
  select-IsBuilt keep (e ∷ es) (h, hs) = elim (Bool-cases (keep e)) [
    | inl kept ↦ rw kept (h, select-IsBuilt keep es hs)
    | inr gone ↦ rw gone (select-IsBuilt keep es hs)
  ]

  take-IsBuilt : (n : ℕ) (es : List (Entry P)) → All IsBuilt es → All IsBuilt (take n es)
  take-IsBuilt zero es h = tt
  take-IsBuilt (suc n) [] h = tt
  take-IsBuilt (suc n) (e ∷ es) (h, hs) = (h, take-IsBuilt n es hs)

  key_id :
      (c d : Connection) → IsPlain c.id → IsPlain d.id → cache_key r c ≡ cache_key r d → c.id ≡ d.id
  unfolding cache_key
  key_id c d hc hd h =
      same_id c.id d.id (r.format_time c.updated_at) (r.format_time d.updated_at) hc hd h

  -- What a look into the cache finds was built for the connection that was asked for.
  pub get-BuiltFor :
      (c : Connection) (cache after : ProviderCache P) (p : P)
      → IsPlain c.id
      → IsCoherent cache
      → get (cache_key r c) cache ≡ (after, some p)
      → BuiltFor (cache_key r c) c.id p × IsCoherent after
  unfolding get hit
  get-BuiltFor c cache after p no_at coherent h = elim (Bool-cases cache.enabled) [
    | inr off ↦ absurd (ground arith)
    | inl on ↦ go (find (has_key (cache_key r c)) cache.order) refl (
        subst
          (λ b.
            (if b then hit cache (find (has_key (cache_key r c)) cache.order) else (cache, none))
            ≡ (after, some p))
          on h)
  ]
    where
      go :
          (o : Option (Entry P))
          → find (has_key (cache_key r c)) cache.order ≡ o
          → hit cache o ≡ (after, some p)
          → BuiltFor (cache_key r c) c.id p × IsCoherent after
      go none e k = absurd (ground arith)
      go (some x) e k =
          let ((d, secret, at_id, d_plain, at_key, made), is_key) =
            All-find IsBuilt (has_key (cache_key r c)) cache.order x coherent e in
          let keys : cache_key r d ≡ cache_key r c =
            at_key ∙ (text_eq_iff x.key (cache_key r c)).0 is_key in
          let is_p : x.provider ≡ p = ground arith in
          let now : record cache { order = x ∷ without x.key cache.order } ≡ after = ground arith in
          (
            (
              d,
              secret,
              key_id d c d_plain no_at keys,
              d_plain,
              keys,
              made ∙ ap (λ q. ok (some q)) is_p,
            ),
            subst IsCoherent now (
              (d, secret, at_id, d_plain, at_key, made),
              without-IsBuilt x.key cache.order coherent,
            ),
          )

  -- A look that finds nothing leaves the cache.
  pub missed-IsCoherent :
      (key : Text) (cache after : ProviderCache P)
      → IsCoherent cache
      → get key cache ≡ (after, none)
      → IsCoherent after
  unfolding get hit
  missed-IsCoherent key cache after coherent h = elim (Bool-cases cache.enabled) [
    | inr off ↦ let same : cache ≡ after = ground arith in subst IsCoherent same coherent
    | inl on ↦ go (find (has_key key) cache.order) (
        subst
          (λ b.
            (if b then hit cache (find (has_key key) cache.order) else (cache, none))
            ≡ (after, none))
          on h)
  ]
    where
      go : (o : Option (Entry P)) → hit cache o ≡ (after, none) → IsCoherent after
      go none k = let same : cache ≡ after = ground arith in subst IsCoherent same coherent
      go (some x) k = absurd (ground arith)

  -- A provider that was built for a connection is put under it.
  pub put-IsCoherent :
      (c : Connection) (secret : List ℕ) (cache : ProviderCache P) (p : P)
      → IsPlain c.id
      → IsCoherent cache
      → r.build c secret ≡ ok (some p)
      → IsCoherent (put c.id (cache_key r c) p cache)
  unfolding put replaced insert
  put-IsCoherent c secret cache p no_at coherent made =
      if_keeps IsCoherent cache.enabled _ cache
        (go (find (has_key (cache_key r c)) cache.order) refl) coherent
    where
      go :
          (o : Option (Entry P))
          → find (has_key (cache_key r c)) cache.order ≡ o
          → IsCoherent (replaced c.id (cache_key r c) p cache o)
      go none e =
          take-IsBuilt cache.max _
            ((c, secret, refl, no_at, refl, made), select-IsBuilt _ cache.order coherent)
      go (some x) e =
          let ((d, _, at_id, d_plain, at_key, _), is_key) =
            All-find IsBuilt (has_key (cache_key r c)) cache.order x coherent e in
          let keys : x.key ≡ cache_key r c = (text_eq_iff x.key (cache_key r c)).0 is_key in
          let ids : d.id ≡ c.id = key_id d c d_plain no_at (at_key ∙ keys) in
          (
            (c, secret, sym ids ∙ at_id, no_at, sym keys, made),
            without-IsBuilt x.key cache.order coherent,
          )
