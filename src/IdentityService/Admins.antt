-- ===== src/IdentityService/Admins.antt =====
-- The admins of a realm, and what is left of them.
use lightweight_saas_backend.Prelude.{
  Bool, Bool-cases, List, [], any, ap, arith, false, if◌then◌else◌, inl, inr, leb, length, map, not,
  refl, select, suc, sym, true, ◌&&◌, ◌+◌, ◌||◌, ◌∙◌, ◌∷◌, ◌≡◌, ◌≤◌,
}
use lightweight_saas_backend.IdentityService.{User, is_enabled_target, last_admin}
use lightweight_saas_backend.Text.{Text, text_eq}
use lightweight_saas_backend.Text.Laws.{text_eq_iff}

-- An admin: the id, and whether the account is enabled.
abbrev pub Admin : Type 0
Admin = Text × Bool

abbrev pub is_on : Admin → Bool
is_on a = a.1

abbrev pub is_id : Text → Admin → Bool
is_id id a = text_eq a.0 id

abbrev pub admin_of : User → Admin
admin_of u = (u.id, u.enabled)

-- The admins without the user of an id.
abbrev pub without_id : Text → List Admin → List Admin
without_id id xs = select (λ a. not (is_id id a)) xs

-- The admins with the account of an id switched.
abbrev pub switched : Text → Bool → Admin → Admin
switched id b a = if is_id id a then (a.0, b) else a

abbrev pub DistinctAdmins : List Admin → Type 0
DistinctAdmins [] = Unit
DistinctAdmins (a ∷ xs) = (any (is_id a.0) xs ≡ false) × DistinctAdmins xs

without-missing : (id : Text) (xs : List Admin) → any (is_id id) xs ≡ false → without_id id xs ≡ xs
without-missing id [] h = refl
without-missing id (a ∷ xs) h =
    let other : is_id id a ≡ false = ground arith in
    rw other (ap (λ ys. a ∷ ys) (without-missing id xs (ground arith)))

-- One removal takes one admin at most.
pub length-without :
    (id : Text) (xs : List Admin)
    → DistinctAdmins xs
    → length (select is_on xs) ≤ length (select is_on (without_id id xs)) + 1
length-without id [] d = omega arith
length-without id (a ∷ xs) (d, ds) = elim (Bool-cases (is_id id a)) [
  | inl hit ↦
      let same = (text_eq_iff a.0 id).0 hit in
      let rest : without_id id xs ≡ xs =
        without-missing id xs (ap (λ t. any (is_id t) xs) (sym same) ∙ d) in
      rw (hit, rest)
        (elim (Bool-cases a.1) [
          | inl lit ↦ rw lit (omega arith)
          | inr dark ↦ rw dark (omega arith)
        ])
  | inr miss ↦
      let rest = length-without id xs ds in
      rw miss
        (elim (Bool-cases a.1) [ inl lit ↦ rw lit (omega (arith, rest)) | inr dark ↦ rw dark rest ])
]

pub any_of_length : (xs : List Admin) → 1 ≤ length (select is_on xs) → any is_on xs ≡ true
any_of_length [] h = absurd (omega (arith, h))
any_of_length (a ∷ xs) h = elim (Bool-cases a.1) [
  | inl lit ↦ rw lit refl
  | inr dark ↦ rw dark (any_of_length xs (rw dark at h))
]

-- Whoever is not enabled, or no admin, is no loss.
pub any-without :
    (id : Text) (xs : List Admin)
    → any (λ a. is_on a && is_id id a) xs ≡ false
    → any is_on xs ≡ true
    → any is_on (without_id id xs) ≡ true
any-without id [] h k = k
any-without id (a ∷ xs) h k = elim (Bool-cases (is_id id a)) [
  | inl hit ↦ rw hit (any-without id xs (ground arith) (ground arith))
  | inr miss ↦ rw miss (ground (arith, any-without id xs))
]

pub any-switched_off :
    (id : Text) (xs : List Admin)
    → any is_on (without_id id xs) ≡ true
    → any is_on (map (switched id false) xs) ≡ true
any-switched_off id [] h = h
any-switched_off id (a ∷ xs) h = elim (Bool-cases (is_id id a)) [
  | inl hit ↦ rw hit (any-switched_off id xs (rw hit at h))
  | inr miss ↦ rw miss (ground (arith, any-switched_off id xs, rw miss at h))
]

pub any-switched_on :
    (id : Text) (xs : List Admin)
    → any is_on xs ≡ true
    → any is_on (map (switched id true) xs) ≡ true
any-switched_on id [] h = h
any-switched_on id (a ∷ xs) h = elim (Bool-cases (is_id id a)) [
  | inl hit ↦ rw hit refl
  | inr miss ↦ rw miss (ground (arith, any-switched_on id xs))
]

-- What the guard counts is what the realm holds.
pub length-admin_of :
    (us : List User) → length (select (λ u. u.enabled) us) ≡ length (select is_on (map admin_of us))
length-admin_of [] = refl
length-admin_of (u ∷ us) = elim (Bool-cases u.enabled) [
  | inl lit ↦ rw lit (ap suc (length-admin_of us))
  | inr dark ↦ rw dark (length-admin_of us)
]

pub any-admin_of :
    (target : Text) (us : List User)
    → any (is_enabled_target target) us ≡ any (λ a. is_on a && is_id target a) (map admin_of us)
any-admin_of target [] = refl
any-admin_of target (u ∷ us) =
    ap (λ b. (u.enabled && text_eq u.id target) || b) (any-admin_of target us)

-- Where the guard lets the target go, an enabled admin stays.
pub last_admin-false :
    (target : Text) (us : List User)
    → DistinctAdmins (map admin_of us)
    → last_admin target us ≡ false
    → any is_on (map admin_of us) ≡ true
    → any is_on (without_id target (map admin_of us)) ≡ true
unfolding last_admin
last_admin-false target us d h k =
    let xs = map admin_of us in
    elim (Bool-cases (any (is_enabled_target target) us)) [
      | inr absent ↦ any-without target xs (sym (any-admin_of target us) ∙ absent) k
      | inl among ↦
          let two : leb (length (select (λ u. u.enabled) us)) 1 ≡ false = ground arith in
          let one_left = length-without target xs d in
          let same = length-admin_of us in
          any_of_length (without_id target xs) (ground (arith, two, one_left, same))
    ]
