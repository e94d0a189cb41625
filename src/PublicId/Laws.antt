-- ===== src/PublicId/Laws.antt =====
-- Round trips of publicid.go: what `parse` accepts, `format` and `new` produce.
use mathlib.Core.Path.{subst}
use lightweight_saas_backend.Prelude.{
  All, All-append, Bool-cases, [], ap, arith, false, inl, inr, length, refl, some, true, ℕ, ◌++◌,
  ◌+◌, ◌==◌, ◌||◌, ◌∙◌, ◌∷◌, ◌≡◌, ◌≢◌,
}
use lightweight_saas_backend.PublicId.{
  after_prefix, check_from, format, is_hex, normalize_uuid, parse, parsed, separator, unparsed,
  wrong_prefix,
}
use lightweight_saas_backend.Text.{Text, cut, is_space, len, to_lower}
use lightweight_saas_backend.Text.Laws.{
  IsAscii, Lacks, NoSpace, cut-append, cut-eq-none, len_of_IsAscii, text_eq_iff, text_eq_refl,
  trim_space_of_NoSpace,
}

separator_plain : is_space separator ≡ false
unfolding is_space
separator_plain = refl

-- A character of a UUID: a hexadecimal digit or a hyphen.
abbrev IsUuidChar : ℕ → Type 0
IsUuidChar c = (is_hex c || c == b'-') ≡ true

pub check_from-All : (i : ℕ) (s : Text) → check_from i s ≡ true → All IsUuidChar s
unfolding check_from
check_from-All i [] h = tt
check_from-All i (c ∷ s) h = ground (arith, check_from-All (i + 1) s)

pub All-Ascii : (s : Text) → All IsUuidChar s → IsAscii s
unfolding is_hex
All-Ascii [] h = tt
All-Ascii (c ∷ s) h = (ground arith, All-Ascii s h.1)

All-NoSpace : (s : Text) → All IsUuidChar s → NoSpace s
unfolding is_hex is_space
All-NoSpace [] h = tt
All-NoSpace (c ∷ s) h = (ground arith, All-NoSpace s h.1)

All-Lacks : (s : Text) → All IsUuidChar s → Lacks separator s
unfolding is_hex
All-Lacks [] h = tt
All-Lacks (c ∷ s) h = (ground arith, All-Lacks s h.1)

check_from-to_lower :
    (i : ℕ) (s : Text) → check_from i s ≡ true → check_from i (to_lower (λ c. c) s) ≡ true
unfolding check_from to_lower
check_from-to_lower i [] h = refl
check_from-to_lower i (c ∷ s) h = ground (arith, check_from-to_lower (i + 1) s)

to_lower_idem : (s : Text) → to_lower (λ c. c) (to_lower (λ c. c) s) ≡ to_lower (λ c. c) s
unfolding to_lower
to_lower_idem [] = refl
to_lower_idem (c ∷ s) = ground (arith, to_lower_idem s)

length-to_lower : (s : Text) → length (to_lower (λ c. c) s) ≡ length s
unfolding to_lower
length-to_lower [] = refl
length-to_lower (c ∷ s) = omega (arith, length-to_lower s)

-- The canonical spelling of a UUID: `normalizeUUID` accepts it and leaves it as it is.
abbrev pub IsCanonical : Text → Type 0
IsCanonical u = normalize_uuid u ≡ some u

abbrev pub IsUuidText : Text → Type 0
IsUuidText = All IsUuidChar

pub IsCanonical-IsUuidText : (u : Text) → IsCanonical u → IsUuidText u
unfolding normalize_uuid
IsCanonical-IsUuidText u h = elim (Bool-cases (check_from 0 u)) [
  | inl e ↦ check_from-All 0 u e
  | inr e ↦ ground arith
]

normalize_uuid_of_check :
    (s : Text)
    → (len s == 36) ≡ true
    → check_from 0 s ≡ true
    → normalize_uuid s ≡ some (to_lower (λ c. c) s)
unfolding normalize_uuid
normalize_uuid_of_check s l e = ground arith

len-to_lower :
    (s : Text) → IsUuidText s → IsUuidText (to_lower (λ c. c) s) → len (to_lower (λ c. c) s) ≡ len s
len-to_lower s h k =
    omega
      (arith, len_of_IsAscii s (All-Ascii s h), len_of_IsAscii _ (All-Ascii _ k), length-to_lower s)

pub check_from-IsCanonical :
    {s : Text} → check_from 0 s ≡ true → length s ≡ 36 → to_lower (λ c. c) s ≡ s → IsCanonical s
check_from-IsCanonical {s} e l low =
    let bytes = len_of_IsAscii s (All-Ascii s (check_from-All 0 s e)) in
    normalize_uuid_of_check s (ground arith) e ∙ ap some low

to_lower-IsCanonical :
    (s : Text) → (len s == 36) ≡ true → check_from 0 s ≡ true → IsCanonical (to_lower (λ c. c) s)
to_lower-IsCanonical s l e =
    let low = check_from-to_lower 0 s e in
    let same = len-to_lower s (check_from-All 0 s e) (check_from-All 0 (to_lower (λ c. c) s) low) in
    normalize_uuid_of_check (to_lower (λ c. c) s) (rw same l) low ∙ ap some (to_lower_idem s)

pub normalize_uuid-IsCanonical : (s u : Text) → normalize_uuid s ≡ some u → IsCanonical u
unfolding normalize_uuid
normalize_uuid-IsCanonical s u h = elim (Bool-cases (check_from 0 s)) [
  | inl e ↦ elim (Bool-cases (len s == 36)) [
    | inl l ↦
        let same : to_lower (λ c. c) s ≡ u = ground arith in
        subst IsCanonical same (to_lower-IsCanonical s l e)
    | inr l ↦ ground arith
  ]
  | inr e ↦ ground arith
]

append-ne-nil : (s t : Text) (c : ℕ) → s ++ c ∷ t ≢ []
append-ne-nil [] t c = ground arith
append-ne-nil (d ∷ s) t c = ground arith

IsCanonical-ne-nil : (u : Text) → IsCanonical u → u ≢ []
unfolding normalize_uuid len
IsCanonical-ne-nil [] h = cc
IsCanonical-ne-nil (c ∷ u) h = ground arith

-- Where there is nothing to trim.
parse_of_NoSpace :
    (prefix s : Text)
    → NoSpace s
    → s ≢ []
    → parse prefix s ≡ after_prefix prefix (cut separator s) s
unfolding parse
parse_of_NoSpace prefix s plain ne =
    rw (trim_space_of_NoSpace s plain) (ground (arith, text_eq_iff s []))

-- Formatting a canonical UUID under a prefix and parsing it back gives the UUID: for every prefix
-- that holds no separator and no white space.
pub parse-format :
    (prefix u : Text)
    → Lacks separator prefix
    → NoSpace prefix
    → IsCanonical u
    → parse prefix (format prefix u) ≡ parsed u
unfolding format after_prefix
parse-format prefix u bare plain canonical =
    let clean = All-NoSpace u (IsCanonical-IsUuidText u canonical) in
    let spaced = All-append _ prefix (separator ∷ u) plain (separator_plain, clean) in
    rw (parse_of_NoSpace prefix (prefix ++ separator ∷ u) spaced (append-ne-nil prefix u separator))
      (rw (cut-append separator prefix u bare) (rw (text_eq_refl prefix, canonical)))

-- A bare canonical UUID is accepted under every prefix, as it is.
pub parse_bare : (prefix u : Text) → IsCanonical u → parse prefix u ≡ parsed u
unfolding after_prefix
parse_bare prefix u canonical =
    let chars = IsCanonical-IsUuidText u canonical in
    rw (parse_of_NoSpace prefix u (All-NoSpace u chars) (IsCanonical-ne-nil u canonical))
      (rw (cut-eq-none separator u (All-Lacks u chars)) (rw canonical))

-- An identifier of another kind is refused by its prefix, whatever stands behind the separator.
pub parse_wrong_prefix :
    (prefix other rest : Text)
    → other ≢ prefix
    → Lacks separator other
    → NoSpace other
    → NoSpace rest
    → parse prefix (format other rest) ≡ unparsed wrong_prefix
unfolding format after_prefix
parse_wrong_prefix prefix other rest ne bare plain clean =
    let spaced = All-append _ other (separator ∷ rest) plain (separator_plain, clean) in
    rw
      (parse_of_NoSpace prefix (other ++ separator ∷ rest) spaced
        (append-ne-nil other rest separator))
      (rw (cut-append separator other rest bare) (ground (arith, text_eq_iff other prefix)))
