-- ===== src/Text/Laws.antt =====
-- Laws of the string functions.
use mathlib.Core.Path.{subst}
use mathlib.Core.List.{reverse, reverse-reverse, reverse-cons}
use lightweight_saas_backend.Prelude.{
  ℕ, ◌≤◌, ◌<◌, ◌≡◌, refl, ◌≢◌, ◌↔◌, true, false, none, some, [], ◌∷◌, ◌++◌, arith, ◌==◌, Bool-cases,
  inl, inr, Option-cases, length, All, All-append,
}
use lightweight_saas_backend.Text.{
  Text, text_eq, len, is_space, trim_left, trim_space, cut, strip_prefix,
}

pub text_eq_refl : (s : Text) → text_eq s s ≡ true
unfolding text_eq
text_eq_refl [] = refl
text_eq_refl (a ∷ s) = ground (arith, text_eq_refl s)

text_eq_sound : (s t : Text) → text_eq s t ≡ true → s ≡ t
unfolding text_eq
text_eq_sound [] [] h = refl
text_eq_sound [] (b ∷ t) h = cc
text_eq_sound (a ∷ s) [] h = cc
text_eq_sound (a ∷ s) (b ∷ t) h = ground (arith, text_eq_sound s t)

pub text_eq_iff : (s t : Text) → (text_eq s t ≡ true) ↔ (s ≡ t)
text_eq_iff s t = (text_eq_sound s t, λ e. subst (λ u. text_eq s u ≡ true) e (text_eq_refl s))

pub text_ne : (s t : Text) → s ≢ t → text_eq s t ≡ false
text_ne s t ne = ground (arith, text_eq_iff s t)

-- A byte that the text does not hold.
abbrev pub Lacks : ℕ → Text → Type 0
Lacks sep = All (λ c. c ≢ sep)

pub cut-append :
    (sep : ℕ) (before after : Text)
    → Lacks sep before
    → cut sep (before ++ sep ∷ after) ≡ some (before, after)
unfolding cut
cut-append sep [] after h = ground arith
cut-append sep (c ∷ before) after h = ground (arith, cut-append sep before after h.1)

pub cut-eq-none : (sep : ℕ) (s : Text) → Lacks sep s → cut sep s ≡ none
unfolding cut
cut-eq-none sep [] h = refl
cut-eq-none sep (c ∷ s) h = ground (arith, cut-eq-none sep s h.1)

pub cut_sound :
    (sep : ℕ) (s before after : Text)
    → cut sep s ≡ some (before, after)
    → (s ≡ before ++ sep ∷ after) × Lacks sep before
unfolding cut
cut_sound sep [] before after h = cc
cut_sound sep (c ∷ s) before after h = elim (Bool-cases (c == sep)) [
  | inl e ↦ ground arith
  | inr e ↦ elim (Option-cases (cut sep s)) [
    | inl missed ↦ ground arith
    | inr (parts, found) ↦ ground (arith, cut_sound sep s parts.0 parts.1)
  ]
]

pub strip_prefix-append : (p s : Text) → strip_prefix p (p ++ s) ≡ some s
unfolding strip_prefix
strip_prefix-append [] s = refl
strip_prefix-append (a ∷ p) s = ground (arith, strip_prefix-append p s)

pub strip_prefix_sound : (p s rest : Text) → strip_prefix p s ≡ some rest → s ≡ p ++ rest
unfolding strip_prefix
strip_prefix_sound [] s rest h = ground arith
strip_prefix_sound (a ∷ p) [] rest h = cc
strip_prefix_sound (a ∷ p) (b ∷ s) rest h = ground (arith, strip_prefix_sound p s rest)

-- All code points are ASCII.
abbrev pub IsAscii : Text → Type 0
IsAscii = All (λ c. c < 0x80)

pub len_of_IsAscii : (s : Text) → IsAscii s → len s ≡ length s
unfolding len
len_of_IsAscii [] h = refl
len_of_IsAscii (c ∷ s) h = ground (arith, len_of_IsAscii s h.1)

pub length-le-len : (s : Text) → length s ≤ len s
unfolding len
length-le-len [] = omega arith
length-le-len (c ∷ s) = ground (arith, length-le-len s)

-- No white space anywhere.
abbrev pub NoSpace : Text → Type 0
NoSpace = All (λ c. is_space c ≡ false)

trim_left_of_NoSpace : (s : Text) → NoSpace s → trim_left s ≡ s
unfolding trim_left
trim_left_of_NoSpace [] h = refl
trim_left_of_NoSpace (c ∷ s) h = rw h.0

reverse-NoSpace : (s : Text) → NoSpace s → NoSpace (reverse s)
reverse-NoSpace [] h = tt
reverse-NoSpace (c ∷ s) h =
    rw reverse-cons (All-append _ (reverse s) (c ∷ []) (reverse-NoSpace s h.1) (h.0, tt))

pub trim_space_of_NoSpace : (s : Text) → NoSpace s → trim_space s ≡ s
unfolding trim_space
trim_space_of_NoSpace s h =
    rw (trim_left_of_NoSpace s h, trim_left_of_NoSpace (reverse s) (reverse-NoSpace s h))
      (reverse-reverse s)
