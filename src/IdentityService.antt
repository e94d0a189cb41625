-- ===== src/IdentityService.antt =====
-- internal/identity/service.go: the guards between the callers and the identity provider.
pub mod Admins
pub mod Creation
pub mod Laws
mod Tests
use lightweight_saas_backend.Prelude.{
  Bool, List, Option, [], any, false, if◌then◌else◌, leb, length, ltb, none, not, select, some,
  true, ℕ, ◌&&◌, ◌-◌, ◌==◌, ◌||◌, ◌∷◌,
}
use lightweight_saas_backend.PublicId.{check_from}
use lightweight_saas_backend.Store.{Result, err, ok}
use lightweight_saas_backend.Text.{
  Text, codes, cut, len, strip_prefix, text_eq, to_lower, trim_space,
}

pub data IdentityError : Type 0 where
  not_found bad_request forbidden role_protected role_reserved unavailable : IdentityError

-- Of the fields of a user those that the guards read.
pub record User : Type 0 where
  pub id : Text
  pub email : Text
  pub enabled : Bool

pub record UpdateUserRequest : Type 0 where
  pub first_name : Option Text
  pub last_name : Option Text
  pub email : Option Text
  pub enabled : Option Bool
  pub email_verified : Option Bool

-- Code that talks to the provider; `S` is the state of the realm behind it.
abbrev pub Talk : Type 0 → Type 0 → Type 0
Talk S A = S → Result IdentityError A × S

-- The methods of `IdentityProvider` that the guarded operations use, without the role that an update
-- returns.
pub record Provider (S : Type 0) : Type 0 where
  pub list_users_by_role : Text → Talk S (List User)
  pub update_user : Text → UpdateUserRequest → Talk S User
  pub delete_user : Text → Talk S (Unit {0})
  pub assign_roles : Text → List Text → Talk S (Unit {0})
  pub unassign_roles : Text → List Text → Talk S (Unit {0})
  pub update_role : Text → Option Text → Talk S (Unit {0})
  pub delete_role : Text → Talk S (Unit {0})
  pub set_password : Text → Text → Bool → Talk S (Unit {0})

-- What goes on after a check, and what goes on after a call.
abbrev pub checked : {S A B : Type 0} → Result IdentityError A → (A → Talk S B) → Talk S B
checked (err e) k s = (err e, s)
checked (ok a) k s = k a s

abbrev pub then_talk :
    {S A B : Type 0} → Result IdentityError A × S → (A → Talk S B) → Result IdentityError B × S
then_talk (err e, s) k = (err e, s)
then_talk (ok a, s) k = k a s

abbrev pub admin_role_name : Text
admin_role_name = codes "admin"

abbrev pub default_page_size : ℕ
default_page_size = 20

abbrev pub max_page_size : ℕ
max_page_size = 100

abbrev pub min_password_length : ℕ
min_password_length = 8

-- `ClampListUsersQuery`: the page, with no number for a negative one.
unfoldable pub clamp_list_users_query : Option ℕ → Option ℕ → ℕ × ℕ
clamp_list_users_query first page_size = (clamped_first first, clamped_max page_size)
  where
    clamped_first : Option ℕ → ℕ
    clamped_first none = 0
    clamped_first (some n) = n

    clamped_max : Option ℕ → ℕ
    clamped_max none = default_page_size
    clamped_max (some n) =
        if n == 0 then default_page_size else if ltb max_page_size n then max_page_size else n

-- `uuidPattern`
unfoldable pub is_valid_user_id : Text → Bool
is_valid_user_id s = len s == 36 && check_from 0 s

abbrev pub with_user_id : {S A : Type 0} → Text → Talk S A → Talk S A
with_user_id id k s = if is_valid_user_id id then k s else (err bad_request, s)

is_role_char : ℕ → Bool
is_role_char c =
    (leb b'A' c && leb c b'Z')
    || (leb b'a' c && leb c b'z')
    || (leb b'0' c && leb c b'9')
    || c == b'_'
    || c == b'-'
    || c == b'.'
    || c == b':'

is_alphanumeric : ℕ → Bool
is_alphanumeric c =
    (leb b'A' c && leb c b'Z') || (leb b'a' c && leb c b'z') || (leb b'0' c && leb c b'9')

-- The rest of a word, of which some characters are room, and the words behind it.
role_rest : ℕ → Bool → Text → Bool
unfolding is_role_char
role_rest room fresh [] = not fresh
role_rest room fresh (c ∷ s) =
    let word = role_rest (room - 1) false s in
    let next_word = role_rest 30 true s in
    if is_role_char c then ltb 0 room && word else c == b' ' && not fresh && next_word

-- `roleNamePattern`
unfoldable pub is_valid_role_name : Text → Bool
unfolding is_alphanumeric role_rest
is_valid_role_name [] = false
is_valid_role_name (c ∷ s) = is_alphanumeric c && role_rest 30 false s

abbrev pub reserved_role_names : List Text
reserved_role_names =
    codes "admin" ∷ codes "user" ∷ codes "offline_access" ∷ codes "uma_authorization" ∷ []

abbrev pub is_given_text : Option Text → Bool
is_given_text none = false
is_given_text (some s) = true

-- `isProtectedRoleName`
unfoldable pub is_protected : Text → Bool
is_protected name =
    any (text_eq name) reserved_role_names
    || is_given_text (strip_prefix (codes "default-roles-") name)

unfoldable pub is_protected_role_name : (ℕ → ℕ) → Text → Bool
is_protected_role_name table name = is_protected (to_lower table (trim_space name))

unfoldable pub trimmed_roles : (ℕ → ℕ) → List Text → Result IdentityError (List Text)
trimmed_roles table [] = ok []
trimmed_roles table (r ∷ rs) =
    let v = to_lower table (trim_space r) in
    let rest = trimmed_roles table rs in
    if text_eq v [] then err bad_request else elim rest [ err e ↦ err e | ok vs ↦ ok (v ∷ vs) ]

-- `normalizeRoleList`
unfoldable pub normalize_role_list : (ℕ → ℕ) → List Text → Result IdentityError (List Text)
normalize_role_list table [] = err bad_request
normalize_role_list table (r ∷ rs) = trimmed_roles table (r ∷ rs)

abbrev pub is_enabled_target : Text → User → Bool
is_enabled_target target u = u.enabled && text_eq u.id target

-- The count that `assertNotLastAdmin` takes of the admins.
unfoldable pub last_admin : Text → List User → Bool
last_admin target us =
    any (is_enabled_target target) us && leb (length (select (λ u. u.enabled) us)) 1

unfoldable pub after_listing :
    {S : Type 0} → Text → Result IdentityError (List User) × S → Result IdentityError (Unit {0}) × S
after_listing target (err not_found, s) = (ok tt, s)
after_listing target (err bad_request, s) = (err bad_request, s)
after_listing target (err forbidden, s) = (err forbidden, s)
after_listing target (err role_protected, s) = (err role_protected, s)
after_listing target (err role_reserved, s) = (err role_reserved, s)
after_listing target (err unavailable, s) = (err unavailable, s)
after_listing target (ok us, s) = (if last_admin target us then err forbidden else ok tt, s)

-- `assertNotLastAdmin`
unfoldable pub assert_not_last_admin : {S : Type 0} → Provider S → Text → Talk S (Unit {0})
assert_not_last_admin p target s = after_listing target (p.list_users_by_role admin_role_name s)

abbrev pub is_self : Text → Text → Bool
is_self caller target = not (text_eq caller []) && text_eq caller target

-- The two guards of what takes an admin out: not oneself, and not the last one.
unfoldable pub guarded_removal : {S A : Type 0} → Provider S → Text → Text → Talk S A → Talk S A
guarded_removal p caller target k s =
    if is_self caller target
    then (err forbidden, s)
    else then_talk (assert_not_last_admin p target s) (λ _. k)

unfoldable pub delete_user : {S : Type 0} → Provider S → Text → Text → Talk S (Unit {0})
delete_user p caller target =
    with_user_id target (guarded_removal p caller target (p.delete_user target))

unfoldable pub delete_invitation : {S : Type 0} → Provider S → Text → Text → Talk S (Unit {0})
delete_invitation p caller target =
    with_user_id target
      (λ s. if is_self caller target then (err forbidden, s) else p.delete_user target s)

abbrev pub is_disable : Option Bool → Bool
is_disable none = false
is_disable (some b) = not b

-- `emailPattern`: one at sign, no blank, a dot inside the domain.
is_blank : ℕ → Bool
is_blank c = c == 9 || c == 10 || c == 12 || c == 13 || c == 32

inner_dot : Text → Bool
inner_dot [] = false
inner_dot (c ∷ []) = false
inner_dot (c ∷ d ∷ s) = c == b'.' || inner_dot (d ∷ s)

dotted : Text → Bool
unfolding inner_dot
dotted [] = false
dotted (c ∷ s) = inner_dot s

is_address : Option (Text × Text) → Bool
unfolding dotted
is_address none = false
is_address (some (user, domain)) =
    not (text_eq user []) && not (any (λ c. c == b'@') domain) && dotted domain

unfoldable pub is_email : Text → Bool
unfolding is_blank is_address
is_email s = not (any is_blank s) && is_address (cut b'@' s)

unfoldable pub checked_email : (ℕ → ℕ) → Option Text → Result IdentityError (Option Text)
checked_email table none = ok none
checked_email table (some e) =
    let v = to_lower table (trim_space e) in if is_email v then ok (some v) else err bad_request

abbrev pub trimmed : Option Text → Option Text
trimmed none = none
trimmed (some s) = some (trim_space s)

-- The request as it goes to the provider.
abbrev pub cleaned : UpdateUserRequest → Option Text → UpdateUserRequest
cleaned req email = record req {
  first_name = trimmed req.first_name;
  last_name = trimmed req.last_name;
  email = email;
}

-- The call, behind the guards where it disables the account.
abbrev pub changing_user :
    {S : Type 0} → Provider S → Text → Text → UpdateUserRequest → Option Text → Talk S User
changing_user p caller target req email s =
    let k = p.update_user target (cleaned req email) in
    if is_disable req.enabled then guarded_removal p caller target k s else k s

unfoldable pub update_user :
    {S : Type 0} → Provider S → (ℕ → ℕ) → Text → Text → UpdateUserRequest → Talk S User
update_user p table caller target req =
    with_user_id target
      (checked (checked_email table req.email) (changing_user p caller target req))

unfoldable pub assign_roles_to_user :
    {S : Type 0} → Provider S → (ℕ → ℕ) → Text → List Text → Talk S (Unit {0})
assign_roles_to_user p table target roles =
    with_user_id target (checked (normalize_role_list table roles) (p.assign_roles target))

-- The call, behind the guards where the role of admins is taken.
abbrev pub taking_roles : {S : Type 0} → Provider S → Text → Text → List Text → Talk S (Unit {0})
taking_roles p caller target roles s =
    let k = p.unassign_roles target roles in
    if any (text_eq admin_role_name) roles then guarded_removal p caller target k s else k s

unfoldable pub unassign_roles_from_user :
    {S : Type 0} → Provider S → (ℕ → ℕ) → Text → Text → List Text → Talk S (Unit {0})
unassign_roles_from_user p table caller target roles =
    with_user_id target (checked (normalize_role_list table roles) (taking_roles p caller target))

-- A role that may be changed.
unfoldable pub open_role : (ℕ → ℕ) → Text → Result IdentityError (Unit {0})
open_role table name =
    if not (is_valid_role_name name)
    then err bad_request
    else if is_protected_role_name table name
    then err role_protected
    else ok tt

unfoldable pub update_role :
    {S : Type 0} → Provider S → (ℕ → ℕ) → Text → Option Text → Talk S (Unit {0})
update_role p table name description =
    checked (open_role table name) (λ _. p.update_role name (trimmed description))

unfoldable pub delete_role : {S : Type 0} → Provider S → (ℕ → ℕ) → Text → Talk S (Unit {0})
delete_role p table name = checked (open_role table name) (λ _. p.delete_role name)

unfoldable pub set_user_password :
    {S : Type 0} → Provider S → Text → Text → Bool → Talk S (Unit {0})
set_user_password p target password temporary = with_user_id target (λ s.
    if ltb (len password) min_password_length
    then (err bad_request, s)
    else p.set_password target password temporary s)
