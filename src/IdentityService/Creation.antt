-- ===== src/IdentityService/Creation.antt =====
-- internal/identity/service.go: what is checked and normalized before a role, a user or an
-- invitation is created. The provider's methods and the format of times are arguments.
use lightweight_saas_backend.Prelude.{
  Bool, Bool-cases, List, Option, [], all, ap, arith, false, if◌then◌else◌, inl, inr, leb, ltb,
  none, refl, some, sym, true, ℕ, ◌&&◌, ◌==◌, ◌||◌, ◌∙◌, ◌∷◌, ◌≡◌,
}
use lightweight_saas_backend.IdentityService.{
  IdentityError, Talk, User, bad_request, checked, is_email, is_protected, min_password_length,
  normalize_role_list, role_reserved,
}
use lightweight_saas_backend.Store.{Result, err, ok}
use lightweight_saas_backend.Text.{Text, len, text_eq, to_lower, trim_space}

pub record CreateRoleRequest : Type 0 where
  pub name : Text
  pub description : Text

pub record CreateUserRequest : Type 0 where
  pub email : Text
  pub first_name : Text
  pub last_name : Text
  pub temporary_password : Text
  pub roles : List Text

pub record CreateInvitationRequest : Type 0 where
  pub email : Text
  pub first_name : Text
  pub last_name : Text
  pub roles : List Text
  pub invited_by : Text
  pub expires_at : Text

-- What the checks look up: lower case beyond ASCII, the clock, and the two directions of RFC 3339.
pub record Clock : Type 0 where
  pub table : ℕ → ℕ
  pub now : ℕ
  pub parse_time : Text → Option ℕ
  pub format_time : ℕ → Text

abbrev pub max_role_name_length : ℕ
max_role_name_length = 255

-- `roleCreatePattern` behind the first character.
is_new_role_char : ℕ → Bool
is_new_role_char c =
    (leb b'a' c && leb c b'z')
    || (leb b'0' c && leb c b'9')
    || c == b'_'
    || c == b'-'
    || c == b'.'
    || c == b':'

is_new_role_start : ℕ → Bool
is_new_role_start c = (leb b'a' c && leb c b'z') || (leb b'0' c && leb c b'9')

unfoldable pub is_new_role_name : Text → Bool
unfolding is_new_role_char is_new_role_start
is_new_role_name [] = false
is_new_role_name (c ∷ s) = is_new_role_start c && all is_new_role_char s && leb (len s) 254

unfoldable pub checked_role_name : Text → Result IdentityError Text
checked_role_name name =
    if text_eq name []
    then err bad_request
    else if ltb max_role_name_length (len name)
    then err bad_request
    else if is_protected name
    then err role_reserved
    else if is_new_role_name name
    then ok name
    else err bad_request

abbrev pub role_named : Text → Result IdentityError Text → Result IdentityError CreateRoleRequest
role_named description (err e) = err e
role_named description (ok name) = ok (record { name = name; description = description })

unfoldable pub checked_role : Clock → CreateRoleRequest → Result IdentityError CreateRoleRequest
checked_role clock req =
    role_named (trim_space req.description)
      (checked_role_name (to_lower clock.table (trim_space req.name)))

unfoldable pub required_email : Clock → Text → Result IdentityError Text
required_email clock raw =
    let email = to_lower clock.table (trim_space raw) in
    if text_eq email []
    then err bad_request
    else if is_email email
    then ok email
    else err bad_request

unfoldable pub required_password : Text → Result IdentityError Text
required_password password =
    if text_eq password []
    then err bad_request
    else if ltb (len password) min_password_length
    then err bad_request
    else ok password

abbrev pub optional_roles : Clock → List Text → Result IdentityError (List Text)
optional_roles clock [] = ok []
optional_roles clock (r ∷ rs) = normalize_role_list clock.table (r ∷ rs)

abbrev pub and_then :
    {A B : Type 0} → Result IdentityError A → (A → Result IdentityError B) → Result IdentityError B
and_then (err e) k = err e
and_then (ok a) k = k a

unfoldable pub checked_user : Clock → CreateUserRequest → Result IdentityError CreateUserRequest
checked_user clock req = and_then (required_email clock req.email) (λ email.
    and_then (required_password req.temporary_password) (λ password.
      and_then (optional_roles clock req.roles) (λ roles. ok (record {
        email = email;
        first_name = trim_space req.first_name;
        last_name = trim_space req.last_name;
        temporary_password = password;
        roles = roles;
      }))))

-- An expiry in the future, in the form it is stored in, or none.
later_than_now : Clock → Option ℕ → Result IdentityError Text
later_than_now clock none = err bad_request
later_than_now clock (some t) =
    if ltb clock.now t then ok (clock.format_time t) else err bad_request

unfoldable pub checked_expiry : Clock → Text → Result IdentityError Text
unfolding later_than_now
checked_expiry clock raw =
    if text_eq raw [] then ok [] else later_than_now clock (clock.parse_time raw)

unfoldable pub checked_invitation :
    Clock → Text → CreateInvitationRequest → Result IdentityError CreateInvitationRequest
checked_invitation clock default_invited_by req =
    and_then (required_email clock req.email) (λ email.
      and_then (normalize_role_list clock.table req.roles) (λ roles.
        and_then (checked_expiry clock (trim_space req.expires_at)) (λ expires_at.
          let invited_by = trim_space req.invited_by in
          ok (record {
            email = email;
            first_name = trim_space req.first_name;
            last_name = trim_space req.last_name;
            roles = roles;
            invited_by = if text_eq invited_by [] then default_invited_by else invited_by;
            expires_at = expires_at;
          }))))

pub record Creator (S : Type 0) : Type 0 where
  pub make_role : CreateRoleRequest → Talk S (Unit {0})
  pub make_user : CreateUserRequest → Talk S User
  pub make_invitation : CreateInvitationRequest → Talk S (Unit {0})

unfoldable pub create_role :
    {S : Type 0} → Creator S → Clock → CreateRoleRequest → Talk S (Unit {0})
create_role p clock req = checked (checked_role clock req) p.make_role

unfoldable pub create_user : {S : Type 0} → Creator S → Clock → CreateUserRequest → Talk S User
create_user p clock req = checked (checked_user clock req) p.make_user

unfoldable pub create_invitation :
    {S : Type 0} → Creator S → Clock → Text → CreateInvitationRequest → Talk S (Unit {0})
create_invitation p clock default_invited_by req =
    checked (checked_invitation clock default_invited_by req) p.make_invitation

checked_role_name-eq-ok :
    (name made : Text)
    → checked_role_name name ≡ ok made
    → (is_protected made ≡ false) × (is_new_role_name made ≡ true)
unfolding checked_role_name
checked_role_name-eq-ok name made h = elim (Bool-cases (is_protected name)) [
  | inl reserved ↦ absurd (ground arith)
  | inr free ↦ elim (Bool-cases (is_new_role_name name)) [
    | inl fits ↦
        let same : name ≡ made = ground arith in
        (ap is_protected (sym same) ∙ free, ap is_new_role_name (sym same) ∙ fits)
    | inr misfit ↦ absurd (ground arith)
  ]
]

-- No role that is created has a protected name, and its name is of the pattern.
pub checked_role-eq-ok :
    (clock : Clock) (req made : CreateRoleRequest)
    → checked_role clock req ≡ ok made
    → (is_protected made.name ≡ false) × (is_new_role_name made.name ≡ true)
unfolding checked_role
checked_role-eq-ok clock req made h =
    go (checked_role_name (to_lower clock.table (trim_space req.name))) refl h
  where
    go :
        (r : Result IdentityError Text)
        → checked_role_name (to_lower clock.table (trim_space req.name)) ≡ r
        → role_named (trim_space req.description) r ≡ ok made
        → (is_protected made.name ≡ false) × (is_new_role_name made.name ≡ true)
    go (err e) q k = absurd (ground arith)
    go (ok name) q k =
        let same : name ≡ made.name = ground arith in
        checked_role_name-eq-ok (to_lower clock.table (trim_space req.name)) made.name
          (q ∙ ap ok same)
