-- ===== src/PublicId/Canonical.antt =====
-- What `Parse` of publicid.go accepts, and how it spells what it returns.
use mathlib.Core.Path.{subst}
use lightweight_saas_backend.Prelude.{
  ==_iff, Bool, Bool-cases, Option, [], and-true, ap, arith, false, if◌then◌else◌, inl, inr, leb,
  length, ltb, none, refl, some, sym, true, ℕ, ◌&&◌, ◌++◌, ◌+◌, ◌==◌, ◌||◌, ◌∙◌, ◌∷◌, ◌≡◌, ◌⊎◌,
}
use lightweight_saas_backend.PublicId.{
  after_prefix, check_from, is_hex, is_hyphen_place, normalize_uuid, parse, parsed, separator,
}
use lightweight_saas_backend.PublicId.Laws.{
  All-Ascii, check_from-All, normalize_uuid-IsCanonical, parse_bare,
}
use lightweight_saas_backend.Text.{
  Text, ascii_lower, codes, cut, len, text_eq, to_lower, trim_space,
}
use lightweight_saas_backend.Text.Laws.{cut_sound, len_of_IsAscii, text_eq_iff}

-- A digit of the spelling of RFC 9562, in lower case.
abbrev is_lower_digit : ℕ → Bool
is_lower_digit c = (leb b'0' c && leb c b'9') || (leb b'a' c && leb c b'f')

-- Whether a text is spelled like a template, in which x stands for a digit and a hyphen for itself.
abbrev spelled_like : Text → Text → Bool
spelled_like [] [] = true
spelled_like [] (c ∷ s) = false
spelled_like (x ∷ template) [] = false
spelled_like (x ∷ template) (c ∷ s) =
    (if x == b'-' then c == b'-' else is_lower_digit c) && spelled_like template s

-- Five groups of digits in lower case, with a hyphen between each two.
abbrev pub IsLowerUuid : Text → Type 0
IsLowerUuid u = spelled_like (codes "xxxxxxxx-xxxx-xxxx-xxxx-xxxxxxxxxxxx") u ≡ true

-- A character as `to_lower` leaves it.
abbrev lowered : ℕ → ℕ
lowered c = if ltb c 0x80 then ascii_lower c else c

-- The template that the loop goes by, from an index on.
abbrev template_from : ℕ → Text → Text
template_from i [] = []
template_from i (c ∷ s) = (if is_hyphen_place i then b'-' else b'x') ∷ template_from (i + 1) s

hex-is_lower_digit : (c : ℕ) → is_hex c ≡ true → is_lower_digit (lowered c) ≡ true
unfolding is_hex
hex-is_lower_digit c h = ground arith

hyphen-lowered : (c : ℕ) → (c == b'-') ≡ true → (lowered c == b'-') ≡ true
hyphen-lowered c h = ground arith

check_from-spelled_like :
    (i : ℕ) (s : Text)
    → check_from i s ≡ true
    → spelled_like (template_from i s) (to_lower (λ c. c) s) ≡ true
unfolding check_from to_lower
check_from-spelled_like i [] h = refl
check_from-spelled_like i (c ∷ s) h = elim (Bool-cases (is_hyphen_place i)) [
  | inl hyphen ↦
      let (here, later) = and-true (c == b'-') (check_from (i + 1) s) (rw hyphen at h) in
      rw (hyphen, hyphen-lowered c here) (check_from-spelled_like (i + 1) s later)
  | inr digit ↦
      let (here, later) = and-true (is_hex c) (check_from (i + 1) s) (rw digit at h) in
      rw (digit, hex-is_lower_digit c here) (check_from-spelled_like (i + 1) s later)
]

template_from-length :
    (i : ℕ) (s u : Text) → length s ≡ length u → template_from i s ≡ template_from i u
template_from-length i [] [] h = refl
template_from-length i [] (d ∷ u) h = absurd (omega (arith, h))
template_from-length i (c ∷ s) [] h = absurd (omega (arith, h))
template_from-length i (c ∷ s) (d ∷ u) h =
    ap (λ t. (if is_hyphen_place i then b'-' else b'x') ∷ t)
      (template_from-length (i + 1) s u (omega (arith, h)))

check_from-IsLowerUuid :
    (s : Text) → (len s == 36) ≡ true → check_from 0 s ≡ true → IsLowerUuid (to_lower (λ c. c) s)
unfolding is_hyphen_place
check_from-IsLowerUuid s l e =
    let template = codes "xxxxxxxx-xxxx-xxxx-xxxx-xxxxxxxxxxxx" in
    let bytes = len_of_IsAscii s (All-Ascii s (check_from-All 0 s e)) in
    let same : template_from 0 s ≡ template =
      template_from-length 0 s template (sym bytes ∙ (==_iff (len s) 36).0 l) in
    subst (λ x. spelled_like x (to_lower (λ c. c) s) ≡ true) same (check_from-spelled_like 0 s e)

normalize_uuid-IsLowerUuid :
    (s u : Text) → normalize_uuid s ≡ some u → (to_lower (λ c. c) s ≡ u) × IsLowerUuid u
unfolding normalize_uuid
normalize_uuid-IsLowerUuid s u h = elim (Bool-cases (check_from 0 s)) [
  | inl e ↦ elim (Bool-cases (len s == 36)) [
    | inl l ↦
        let same : to_lower (λ c. c) s ≡ u = ground arith in
        (same, subst IsLowerUuid same (check_from-IsLowerUuid s l e))
    | inr l ↦ absurd (ground arith)
  ]
  | inr e ↦ absurd (ground arith)
]

-- A text with the prefix before it, or without.
abbrev pub IsBody : Text → Text → Text → Type 0
IsBody prefix s body = (s ≡ body) ⊎ (s ≡ prefix ++ separator ∷ body)

after_prefix-eq-parsed :
    (prefix s u : Text) (parts : Option (Text × Text))
    → cut separator s ≡ parts
    → after_prefix prefix parts s ≡ parsed u
    → (body : Text) × IsBody prefix s body × (normalize_uuid body ≡ some u)
unfolding after_prefix
after_prefix-eq-parsed prefix s u none e h = (s, inl refl, ground arith)
after_prefix-eq-parsed prefix s u (some (before, after)) e h =
    elim (Bool-cases (text_eq before prefix)) [
      | inl same ↦
          let prefixed : s ≡ prefix ++ separator ∷ after =
            (cut_sound separator s before after e).0
            ∙ ap (λ t. t ++ separator ∷ after) ((text_eq_iff before prefix).0 same) in
          (after, inr prefixed, ground arith)
      | inr other ↦ absurd (ground arith)
    ]

parse-eq-parsed :
    (prefix s u : Text)
    → parse prefix s ≡ parsed u
    → (body : Text) × IsBody prefix (trim_space s) body × (normalize_uuid body ≡ some u)
unfolding parse
parse-eq-parsed prefix s u h =
    after_prefix-eq-parsed prefix (trim_space s) u (cut separator (trim_space s)) refl
      (ground arith)

-- Whatever is accepted, under any prefix, is but for the white space around it a text with that
-- prefix and a separator before it, or without them; the result is that text in lower case, and it is
-- a UUID in canonical form: digits 0 to 9 and a to f, in groups of 8, 4, 4, 4 and 12 with a hyphen
-- between each two. The result is accepted again under every prefix, as it is.
pub parse-IsLowerUuid :
    (prefix other s u : Text)
    → parse prefix s ≡ parsed u
    → ((body : Text) × IsBody prefix (trim_space s) body × (to_lower (λ c. c) body ≡ u))
      × IsLowerUuid u
      × (parse other u ≡ parsed u)
parse-IsLowerUuid prefix other s u h =
    let (body, is_body, accepted) = parse-eq-parsed prefix s u h in
    let (lower, spelled) = normalize_uuid-IsLowerUuid body u accepted in
    (
      (body, is_body, lower),
      spelled,
      parse_bare other u (normalize_uuid-IsCanonical body u accepted),
    )
