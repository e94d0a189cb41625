-- ===== src/AuditLog/Laws.antt =====
-- Nothing that is free text gets into a reason code, and what is kept is bounded.
use lightweight_saas_backend.Prelude.{
  Bool, Bool-cases, List, [], any, ap, arith, find, inl, inr, leb, length, length-take-le, none,
  refl, some, true, ℕ, ◌-◌, ◌∙◌, ◌∷◌, ◌≡◌, ◌≤◌, ◌⊎◌,
}
use lightweight_saas_backend.AuditLog.{
  Metadata, allowed_keys, allowlist_metadata, allowlisted, contains, known_reason_codes,
  max_metadata_values, or_unclassified, reason_code_for, reason_code_unclassified, truncate,
}
use lightweight_saas_backend.Text.{Text, len, text_eq, to_lower}
use lightweight_saas_backend.Text.Laws.{text_eq_refl}

find-among :
    (p : Text → Bool) (codes_known : List Text)
    → (find p codes_known ≡ none)
      ⊎ ((code : Text) × (find p codes_known ≡ some code) × (any (text_eq code) codes_known ≡ true))
find-among p [] = inl refl
find-among p (c ∷ cs) = elim (Bool-cases (p c)) [
  | inl hit ↦ rw hit (inr (c, refl, rw (text_eq_refl c) refl))
  | inr miss ↦ rw miss (elim (find-among p cs) [
    | inl absent ↦ inl absent
    | inr (code, at, among) ↦ inr (code, at, ground (arith, among))
  ])
]

-- Whatever the reason of a failure says, the code that is kept is of a closed vocabulary.
pub reason_code_for-closed :
    (table : ℕ → ℕ) (reason : Text)
    → (reason_code_for table reason ≡ [])
      ⊎ ((reason_code_for table reason ≡ reason_code_unclassified)
          ⊎ (any (text_eq (reason_code_for table reason)) known_reason_codes ≡ true))
unfolding reason_code_for
reason_code_for-closed table reason = elim (Bool-cases (text_eq reason [])) [
  | inl empty ↦ rw empty (inl refl)
  | inr given ↦
      elim (find-among (λ code. contains code (to_lower table reason)) known_reason_codes) [
        | inl absent ↦ rw given (inr (inl (ap or_unclassified absent)))
        | inr (code, at, among) ↦
            rw given (
              inr (inr (ap (λ o. any (text_eq (or_unclassified o)) known_reason_codes) at ∙ among)))
      ]
]

-- A truncated text has at most the bytes it may have.
pub len-truncate : (room : ℕ) (s : Text) → len (truncate room s) ≤ room
unfolding truncate len
len-truncate room [] = omega arith
len-truncate room (c ∷ s) = elim (Bool-cases (leb (len (c ∷ [])) room)) [
  | inl fits ↦ rw fits (ground (arith, len-truncate (room - len (c ∷ [])) s))
  | inr beyond ↦ rw beyond (omega arith)
]

-- A text that fits is kept as it is.
pub truncate-short : (room : ℕ) (s : Text) → len s ≤ room → truncate room s ≡ s
unfolding truncate len
truncate-short room [] h = refl
truncate-short room (c ∷ s) h =
    let fits : leb (len (c ∷ [])) room ≡ true = ground (arith, h) in
    let shorter : len s ≤ room - len (c ∷ []) = omega (arith, h) in
    rw fits (ap (λ t. c ∷ t) (truncate-short (room - len (c ∷ [])) s shorter))

-- The metadata that is kept is small.
pub length-allowlist_metadata :
    (event_type : Text) (extra : Metadata)
    → length (allowlist_metadata event_type extra) ≤ max_metadata_values
unfolding allowlist_metadata
length-allowlist_metadata event_type extra =
    length-take-le max_metadata_values (allowlisted (allowed_keys event_type) extra)
