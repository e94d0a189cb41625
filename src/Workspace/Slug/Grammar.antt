-- ===== src/Workspace/Slug/Grammar.antt =====
-- The slug pattern accepts the groups of letters and digits joined by single hyphens.
use mathlib.Core.List.{append-nil}
use lightweight_saas_backend.Prelude.{
  All, Bool, Bool-cases, List, [], any, ap, arith, false, inl, inr, none, refl, true, ℕ, ◌++◌, ◌↔◌,
  ◌∙◌, ◌∷◌, ◌≡◌, ◌≢◌, ◌≤◌,
}
use lightweight_saas_backend.Text.{Text, len, text_eq}
use lightweight_saas_backend.Text.Laws.{text_eq_iff}
use lightweight_saas_backend.Workspace.Slug.{
  is_reserved, is_slug_char, match_from, max_slug_length, reserved_slugs, slug_pattern,
  validate_slug,
}

-- One group: [a-z0-9]+
pub data Group : Text → Type 0 where
  one : {c : ℕ} → is_slug_char c ≡ true → Group (c ∷ [])
  more : {c : ℕ} {s : Text} → is_slug_char c ≡ true → Group s → Group (c ∷ s)

-- Groups joined by single hyphens.
pub data IsSlug : Text → Type 0 where
  alone : {u : Text} → Group u → IsSlug u
  joined : {s t u : Text} → Group s → IsSlug t → u ≡ s ++ b'-' ∷ t → IsSlug u

IsSlug-cons : {c : ℕ} {u : Text} → is_slug_char c ≡ true → IsSlug u → IsSlug (c ∷ u)
IsSlug-cons h (alone g) = alone (more h g)
IsSlug-cons {c} h (joined g k e) = joined (more h g) k (ap (λ v. c ∷ v) e)

-- Inside a group whose first character is `c`.
inside_sound :
    (c : ℕ) (s : Text) → is_slug_char c ≡ true → match_from true s ≡ true → IsSlug (c ∷ s)
unfolding match_from
inside_sound c [] h m = alone (one h)
inside_sound c (d ∷ []) h m = elim (Bool-cases (is_slug_char d)) [
  | inl e ↦ IsSlug-cons h (alone (one e))
  | inr e ↦ ground arith
]
inside_sound c (d ∷ e ∷ s) h m = elim (Bool-cases (is_slug_char d)) [
  | inl k ↦ IsSlug-cons h (inside_sound d (e ∷ s) k (ground arith))
  | inr k ↦
      let hyphen : d ≡ b'-' = ground arith in
      joined (one {c = c} h) (inside_sound e s (ground arith) (ground arith)) (rw hyphen)
]

match_from_sound : (s : Text) → match_from false s ≡ true → IsSlug s
unfolding match_from
match_from_sound [] m = cc
match_from_sound (c ∷ s) m = inside_sound c s (ground arith) (ground arith)

hyphen_outside : is_slug_char b'-' ≡ false
unfolding is_slug_char
hyphen_outside = refl

match_from-Group :
    (inside : Bool) {s : Text} (t : Text) → Group s → match_from inside (s ++ t) ≡ match_from true t
unfolding match_from
match_from-Group inside t (one h) = rw h
match_from-Group inside t (more h g) = rw h (match_from-Group true t g)

match_from_complete : (s : Text) → IsSlug s → match_from false s ≡ true
unfolding match_from
match_from_complete s (alone g) = rw (← append-nil s) (match_from-Group false [] g)
match_from_complete s (joined {t = t} g k e) =
    rw e (match_from-Group false (b'-' ∷ t) g ∙ rw hyphen_outside (match_from_complete t k))

-- The pattern of `slugPattern` accepts exactly the groups of [a-z0-9] joined by single hyphens.
pub slug_pattern_iff : (s : Text) → (slug_pattern s ≡ true) ↔ IsSlug s
unfolding slug_pattern
slug_pattern_iff s = (match_from_sound s, match_from_complete s)

reserved_iff :
    (s : Text) (names : List Text) → (any (text_eq s) names ≡ false) ↔ All (λ r. s ≢ r) names
reserved_iff s [] = ((λ h. tt), λ h. refl)
reserved_iff s (r ∷ names) =
    let (to, from) = reserved_iff s names in
    ((λ h. ground (arith, to, text_eq_iff s r)), λ h. ground (arith, from h.1, text_eq_iff s r))

match_from-ne-nil : (s : Text) → slug_pattern s ≡ true → text_eq s [] ≡ false
unfolding slug_pattern match_from text_eq
match_from-ne-nil [] h = cc
match_from-ne-nil (c ∷ s) h = refl

-- `ValidateSlug` accepts a slug exactly if it has that form, takes at most 63 bytes and is none of
-- the reserved names.
pub validate_slug_iff :
    (s : Text)
    → (validate_slug s ≡ none)
      ↔ (IsSlug s × (len s ≤ max_slug_length) × All (λ r. s ≢ r) reserved_slugs)
unfolding validate_slug is_reserved
validate_slug_iff s =
    let (form, matched) = slug_pattern_iff s in
    let (free, taken) = reserved_iff s reserved_slugs in
    let nonempty = match_from-ne-nil s in
    (
      (λ h. (form (ground arith), ground arith, free (ground arith))),
      λ h. ground (arith, matched h.0, nonempty (matched h.0), taken h.2),
    )
