-- ===== src/Workspace/Slug/Derive.antt =====
-- What `SlugFromName` derives from a display name is empty or a slug.
use lightweight_saas_backend.Prelude.{
  Bool, Bool-cases, [], ap, arith, false, if◌then◌else◌, inl, inr, length, length-take-le, ltb, not,
  refl, suc, take, true, zero, ℕ, ◌&&◌, ◌==◌, ◌||◌, ◌∷◌, ◌≡◌, ◌≤◌, ◌⊎◌,
}
use lightweight_saas_backend.Text.{Text, len, to_lower, trim_space, trim_suffix}
use lightweight_saas_backend.Text.Laws.{IsAscii, len_of_IsAscii}
use lightweight_saas_backend.Workspace.Slug.{
  emit, is_slug_char, match_from, max_slug_length, slug_from_name, slug_loop, slug_pattern,
}
use lightweight_saas_backend.Workspace.Slug.Grammar.{IsSlug, slug_pattern_iff}

-- The automaton's run where a hyphen may stand last.
loose : Bool → Text → Bool
loose inside [] = true
loose inside (c ∷ s) = (is_slug_char c || (inside && c == b'-')) && loose (is_slug_char c) s

loose_of_match_from :
    (inside : Bool) (s : Text) → match_from inside s ≡ true → loose inside s ≡ true
unfolding match_from loose
loose_of_match_from inside [] h = refl
loose_of_match_from inside (c ∷ s) h = ground (arith, loose_of_match_from (is_slug_char c) s)

hyphen_outside : is_slug_char b'-' ≡ false
unfolding is_slug_char
hyphen_outside = refl

loose_skip :
    (last : Bool) (r : ℕ) (s : Text)
    → is_slug_char r ≡ false
    → loose false (slug_loop true s) ≡ true
    → loose (not last) (slug_loop last (r ∷ s)) ≡ true
unfolding loose slug_loop emit
loose_skip true r s e h = rw e h
loose_skip false r s e h = rw e (rw hyphen_outside h)

loose-slug_loop : (last : Bool) (s : Text) → loose (not last) (slug_loop last s) ≡ true
unfolding loose slug_loop
loose-slug_loop last [] = refl
loose-slug_loop last (r ∷ s) = elim (Bool-cases (is_slug_char r)) [
  | inl e ↦ rw (e, emit) (rw e (loose-slug_loop false s))
  | inr e ↦ loose_skip last r s e (loose-slug_loop true s)
]

loose-take :
    (inside : Bool) (n : ℕ) (s : Text) → loose inside s ≡ true → loose inside (take n s) ≡ true
unfolding loose
loose-take inside zero s h = refl
loose-take inside (suc n) [] h = refl
loose-take inside (suc n) (c ∷ s) h = ground (arith, loose-take (is_slug_char c) n s)

trim_suffix-eq-nil : (c : ℕ) (s : Text) → trim_suffix b'-' (c ∷ s) ≡ [] → c ≡ b'-'
unfolding trim_suffix
trim_suffix-eq-nil c [] h = ground arith
trim_suffix-eq-nil c (d ∷ s) h = ground arith

-- Without its last hyphen such a text is empty, or accepted.
trim-accepted :
    (inside : Bool) (s : Text)
    → loose inside s ≡ true
    → (trim_suffix b'-' s ≡ []) ⊎ (match_from inside (trim_suffix b'-' s) ≡ true)
unfolding loose match_from trim_suffix
trim-accepted inside [] h = inl refl
trim-accepted inside (c ∷ []) h = elim (Bool-cases (c == b'-')) [
  | inl e ↦ inl (rw e)
  | inr e ↦ inr (ground arith)
]
trim-accepted inside (c ∷ d ∷ s) h = elim (trim-accepted (is_slug_char c) (d ∷ s) (ground arith)) [
  | inl e ↦ inr (
      rw e (
        ground (
          arith,
          trim_suffix-eq-nil d s e,
          ap is_slug_char (trim_suffix-eq-nil d s e),
          hyphen_outside,
        )))
  | inr m ↦ inr (ground arith)
]

match_from-IsAscii : (inside : Bool) (s : Text) → match_from inside s ≡ true → IsAscii s
unfolding match_from is_slug_char
match_from-IsAscii inside [] h = tt
match_from-IsAscii inside (c ∷ s) h =
    (ground arith, match_from-IsAscii (is_slug_char c) s (ground arith))

length-trim_suffix : (s : Text) → length (trim_suffix b'-' s) ≤ length s
unfolding trim_suffix
length-trim_suffix [] = omega arith
length-trim_suffix (c ∷ []) = ground arith
length-trim_suffix (c ∷ d ∷ s) = omega (arith, length-trim_suffix (d ∷ s))

-- The first trim and the cut at 63 bytes, with the second trim.
shorten : Text → Text
shorten out =
    if ltb max_slug_length (len out) then trim_suffix b'-' (take max_slug_length out) else out

abbrev IsEmptyOrSlug : Text → Type 0
IsEmptyOrSlug u = (u ≡ []) ⊎ ((slug_pattern u ≡ true) × (len u ≤ max_slug_length))

short_enough :
    (s : Text)
    → match_from false (trim_suffix b'-' (take max_slug_length s)) ≡ true
    → len (trim_suffix b'-' (take max_slug_length s)) ≤ max_slug_length
short_enough s m = omega (
  arith,
  len_of_IsAscii _ (match_from-IsAscii false _ m),
  length-trim_suffix (take max_slug_length s),
  length-take-le {0} max_slug_length s,
)

shorten-IsEmptyOrSlug : (out : Text) → match_from false out ≡ true → IsEmptyOrSlug (shorten out)
unfolding shorten slug_pattern
shorten-IsEmptyOrSlug out m = elim (Bool-cases (ltb max_slug_length (len out))) [
  | inl long ↦
      rw long
        (elim (trim-accepted false (take max_slug_length out)
          (loose-take false max_slug_length out (loose_of_match_from false out m))) [
            | inl e ↦ inl e
            | inr n ↦ inr (n, short_enough out n)
          ])
  | inr fits ↦ rw fits (inr (m, ground arith))
]

shorten-nil : shorten [] ≡ []
unfolding shorten len
shorten-nil = refl

written : (ℕ → ℕ) → Text → Text
written table name = slug_loop true (to_lower table (trim_space name))

slug_from_name-shorten :
    (table : ℕ → ℕ) (name : Text)
    → slug_from_name table name ≡ shorten (trim_suffix b'-' (written table name))
unfolding slug_from_name shorten written
slug_from_name-shorten table name = refl

-- Whatever the display name and whatever the lower case of the letters beyond ASCII, the derived
-- slug is empty, or a text of at most 63 bytes that the slug pattern accepts.
pub slug_from_name-IsSlug :
    (table : ℕ → ℕ) (name : Text)
    → (slug_from_name table name ≡ [])
      ⊎ (IsSlug (slug_from_name table name) × (len (slug_from_name table name) ≤ max_slug_length))
unfolding written
slug_from_name-IsSlug table name =
    elim (trim-accepted false (written table name) (loose-slug_loop true _)) [
      | inl e ↦ inl (rw (slug_from_name-shorten table name) (rw e shorten-nil))
      | inr m ↦ rw (slug_from_name-shorten table name) (elim (shorten-IsEmptyOrSlug _ m) [
        | inl e ↦ inl e
        | inr (h, l) ↦ inr ((slug_pattern_iff _).0 h, l)
      ])
    ]
