-- ===== src/Authz/Scope/Laws.antt =====
-- What `NormalizeScopes` returns.
use mathlib.Core.Path.{subst}
use lightweight_saas_backend.Prelude.{
  All, Bool, Bool-cases, List, [], any, ap, arith, false, inl, inr, map, refl, sym, true, ℕ, ◌++◌,
  ◌||◌, ◌∙◌, ◌∷◌, ◌≡◌,
}
use lightweight_saas_backend.Authz.Scope.{
  is_known_scope, next_out, next_seen, normalize_from, normalize_scopes, scopes_ok,
}
use lightweight_saas_backend.Text.{Text, text_eq, to_lower, trim_space}
use lightweight_saas_backend.Text.Laws.{text_eq_iff}

-- No text stands twice.
abbrev pub NoDuplicates : List Text → Type 0
NoDuplicates [] = Unit
NoDuplicates (s ∷ l) = (any (text_eq s) l ≡ false) × NoDuplicates l

-- The two lists hold the same texts.
abbrev SameTexts : List Text → List Text → Type 0
SameTexts xs ys = (s : Text) → any (text_eq s) xs ≡ any (text_eq s) ys

any-append :
    (s : Text) (xs ys : List Text)
    → any (text_eq s) (xs ++ ys) ≡ (any (text_eq s) xs || any (text_eq s) ys)
any-append s [] ys = refl
any-append s (x ∷ xs) ys = ground (arith, any-append s xs ys)

NoDuplicates-append :
    (xs : List Text) (s : Text)
    → NoDuplicates xs
    → any (text_eq s) xs ≡ false
    → NoDuplicates (xs ++ s ∷ [])
NoDuplicates-append [] s h e = (refl, tt)
NoDuplicates-append (x ∷ xs) s h e = (
  ground (arith, any-append x xs (s ∷ []), text_eq_iff x s, text_eq_iff s x),
  NoDuplicates-append xs s h.1 (ground arith),
)

-- The entries as they are compared: trimmed and in lower case.
abbrev pub cleaned : (ℕ → ℕ) → List Text → List Text
cleaned table = map (λ r. to_lower table (trim_space r))

known-ne-nil : (s : Text) → is_known_scope s ≡ true → text_eq s [] ≡ false
unfolding is_known_scope text_eq
known-ne-nil [] h = cc
known-ne-nil (c ∷ s) h = refl

-- What is accepted from the state (seen, out) on.
record Accepts (table : ℕ → ℕ) (out raw result : List Text) : Type 0 where
  distinct : NoDuplicates result
  known : All (λ s. is_known_scope s ≡ true) (cleaned table raw)
  same :
      (s : Text)
      → any (text_eq s) result ≡ (any (text_eq s) out || any (text_eq s) (cleaned table raw))

any-swap : (t s : Text) → any (text_eq t) (s ∷ []) ≡ text_eq t s
any-swap t s = ground arith

next_same :
    (s : Text) (seen out : List Text)
    → SameTexts seen out
    → SameTexts (next_seen s seen) (next_out s seen out)
unfolding next_seen next_out
next_same s seen out h t = elim (Bool-cases (any (text_eq s) seen)) [
  | inl e ↦ rw e (h t)
  | inr e ↦ rw e (ground (arith, any-append t out (s ∷ []), h t))
]

next-NoDuplicates :
    (s : Text) (seen out : List Text)
    → SameTexts seen out
    → NoDuplicates out
    → NoDuplicates (next_out s seen out)
unfolding next_out
next-NoDuplicates s seen out h d = elim (Bool-cases (any (text_eq s) seen)) [
  | inl e ↦ rw e d
  | inr e ↦ rw e (NoDuplicates-append out s d (sym (h s) ∙ e))
]

any_of_eq : (t s : Text) (l : List Text) → t ≡ s → any (text_eq s) l ≡ any (text_eq t) l
any_of_eq t s l e = rw e

next_holds :
    (s t : Text) (seen out : List Text)
    → SameTexts seen out
    → any (text_eq t) (next_out s seen out) ≡ (any (text_eq t) out || text_eq t s)
unfolding next_out
next_holds s t seen out h = elim (Bool-cases (any (text_eq s) seen)) [
  | inl e ↦ rw e (ground (arith, text_eq_iff t s, any_of_eq t s out, h s))
  | inr e ↦ rw e (any-append t out (s ∷ []) ∙ ap (λ b. any (text_eq t) out || b) (any-swap t s))
]

or_assoc : (a b c : Bool) → ((a || b) || c) ≡ (a || (b || c))
or_assoc a b c = ground arith

normalize_from_sound :
    (table : ℕ → ℕ) (seen out raw result : List Text)
    → SameTexts seen out
    → NoDuplicates out
    → normalize_from table seen out raw ≡ scopes_ok result
    → Accepts table out raw result
unfolding normalize_from
normalize_from_sound table seen out [] result same_out distinct e =
    let done : out ≡ result = ground arith in
    record {
      distinct = subst NoDuplicates done distinct;
      known = tt;
      same = λ s. rw (← done) (ground arith);
    }
normalize_from_sound table seen out (r ∷ raw) result same_out distinct e =
    let s = to_lower table (trim_space r) in
    let rest =
      normalize_from_sound table (next_seen s seen) (next_out s seen out) raw result
        (next_same s seen out same_out) (next-NoDuplicates s seen out same_out distinct)
        (ground arith) in
    record {
      distinct = rest.distinct;
      known = (ground arith, rest.known);
      same = λ t.
          rest.same t
          ∙ rw (next_holds s t seen out same_out) (
              or_assoc (any (text_eq t) out) (text_eq t (to_lower table (trim_space r)))
                (any (text_eq t) (cleaned table raw)));
    }

-- Where every entry is known, the loop ends without a complaint.
normalize_from_complete :
    (table : ℕ → ℕ) (seen out raw : List Text)
    → All (λ s. is_known_scope s ≡ true) (cleaned table raw)
    → (result : List Text) × (normalize_from table seen out raw ≡ scopes_ok result)
unfolding normalize_from
normalize_from_complete table seen out [] h = (out, refl)
normalize_from_complete table seen out (r ∷ raw) h =
    let s = to_lower table (trim_space r) in
    let (result, e) =
      normalize_from_complete table (next_seen s seen) (next_out s seen out) raw h.1 in
    (result, ground (arith, known-ne-nil s))

-- `NormalizeScopes` succeeds exactly if every entry, trimmed and in lower case, is a scope; what it
-- returns then holds each of them, nothing else, and nothing twice.
pub normalize_scopes_correct :
    (table : ℕ → ℕ) (raw : List Text)
    → (All (λ s. is_known_scope s ≡ true) (cleaned table raw)
        → (result : List Text) × (normalize_scopes table raw ≡ scopes_ok result))
      × ((result : List Text)
          → normalize_scopes table raw ≡ scopes_ok result
          → All (λ s. is_known_scope s ≡ true) (cleaned table raw)
            × NoDuplicates result
            × ((s : Text) → any (text_eq s) result ≡ any (text_eq s) (cleaned table raw)))
unfolding normalize_scopes
normalize_scopes_correct table raw = (
  (λ h. normalize_from_complete table [] [] raw h),
  λ result e.
      let a = normalize_from_sound table [] [] raw result (λ s. refl) tt e in
      (a.known, a.distinct, a.same),
)
