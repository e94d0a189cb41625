-- ===== src/IdentityService/Tests.antt =====
-- A realm that is the list of its admins, of whom one is enabled.
use lightweight_saas_backend.Result.{Result}
use lightweight_saas_backend.Prelude.{
  Bool, Bool-cases, List, Option, [], any, ap, arith, false, if◌then◌else◌, inl, inr, map, none,
  not, refl, select, some, sym, true, ◌∙◌, ◌∷◌, ◌≡◌, ◌⊎◌,
}
use lightweight_saas_backend.Examples.{key_id, ws_id}
use lightweight_saas_backend.IdentityService.{IdentityError}
use lightweight_saas_backend.IdentityService.{
  Provider, UpdateUserRequest, User, admin_role_name, delete_user, is_disable,
  unassign_roles_from_user, update_user,
}
use lightweight_saas_backend.IdentityService.Admins.{
  DistinctAdmins, admin_of, is_on, switched, without_id,
}
use lightweight_saas_backend.IdentityService.Laws.{IsRealm, removals-HasAdmin}
use lightweight_saas_backend.Store.{ok}
use lightweight_saas_backend.Text.{Text, codes, text_eq}

abbrev switch : Text → Option Bool → User → User
switch id none u = u
switch id (some b) u = if text_eq u.id id then record u { enabled = b } else u

abbrev some_user : User
some_user = record { id = ws_id; email = codes "root@example.com"; enabled = true }

abbrev provider : Provider (List User)
provider = record {
  list_users_by_role = λ role s. (ok s, s);
  update_user = λ id req s. (ok some_user, map (switch id req.enabled) s);
  delete_user = λ id s. (ok tt, select (λ u. not (text_eq u.id id)) s);
  assign_roles = λ id roles s. (ok tt, s);
  unassign_roles = λ id roles s. (
    ok tt,
    if any (text_eq admin_role_name) roles then select (λ u. not (text_eq u.id id)) s else s,
  );
  update_role = λ name description s. (ok tt, s);
  delete_role = λ name s. (ok tt, s);
  set_password = λ id password temporary s. (ok tt, s);
}

map-select :
    (id : Text) (us : List User)
    → map admin_of (select (λ u. not (text_eq u.id id)) us) ≡ without_id id (map admin_of us)
map-select id [] = refl
map-select id (u ∷ us) = elim (Bool-cases (text_eq u.id id)) [
  | inl hit ↦ rw hit (map-select id us)
  | inr miss ↦ rw miss (ap (λ xs. admin_of u ∷ xs) (map-select id us))
]

map-switch :
    (id : Text) (b : Bool) (us : List User)
    → map admin_of (map (switch id (some b)) us) ≡ map (switched id b) (map admin_of us)
map-switch id b [] = refl
map-switch id b (u ∷ us) = elim (Bool-cases (text_eq u.id id)) [
  | inl hit ↦ rw hit (ap (λ xs. (u.id, b) ∷ xs) (map-switch id b us))
  | inr miss ↦ rw miss (ap (λ xs. admin_of u ∷ xs) (map-switch id b us))
]

map-stay : (id : Text) (us : List User) → map admin_of (map (switch id none) us) ≡ map admin_of us
map-stay id [] = refl
map-stay id (u ∷ us) = ap (λ xs. admin_of u ∷ xs) (map-stay id us)

provider-IsRealm : IsRealm provider (map admin_of)
provider-IsRealm = record {
  lists = λ s us h. ap (map admin_of) (sym (ok_same s us h));
  missing = λ s h. absurd (ground arith);
  reads = λ s. refl;
  deletes = λ id s. inr (map-select id s);
  disables =
      λ id req s h. inr (ap (λ e. map admin_of (map (switch id e) s)) h ∙ map-switch id false s);
  updates = λ id req s h. enables id req.enabled s h;
  unassigns = λ id roles s. elim (Bool-cases (any (text_eq admin_role_name) roles)) [
    | inl named ↦ inr (named, rw named (map-select id s))
    | inr unnamed ↦ inl (rw unnamed refl)
  ];
}
  where
    ok_same :
        (s us : List User) → ◌≡◌ {A = Result IdentityError (List User)} (ok s) (ok us) → s ≡ us
    ok_same s us h = ground arith

    enables :
        (id : Text) (e : Option Bool) (s : List User)
        → is_disable e ≡ false
        → (map admin_of (map (switch id e) s) ≡ map admin_of s)
          ⊎ (map admin_of (map (switch id e) s) ≡ map (switched id true) (map admin_of s))
    enables id none s h = inl (map-stay id s)
    enables id (some true) s h = inr (map-switch id true s)
    enables id (some false) s h = absurd (ground arith)

abbrev realm_state : List User
realm_state = some_user ∷ record some_user { id = key_id; enabled = false } ∷ []

abbrev disable : UpdateUserRequest
disable = record {
  first_name = none;
  last_name = none;
  email = none;
  enabled = some false;
  email_verified = none;
}

two_admins : DistinctAdmins (map admin_of realm_state)
unfolding text_eq
two_admins = (refl, (refl, tt))

removals-HasAdmin_example :
    (any is_on (map admin_of (delete_user provider key_id ws_id realm_state).1) ≡ true)
    × (any is_on (map admin_of (update_user provider (λ c. c) key_id ws_id disable realm_state).1)
        ≡ true)
    × (any is_on (
          map admin_of
            (unassign_roles_from_user provider
              (λ c. c)
              key_id
              ws_id
              (admin_role_name ∷ [])
              realm_state).1)
        ≡ true)
removals-HasAdmin_example =
    removals-HasAdmin provider (map admin_of) provider-IsRealm (λ c. c) key_id ws_id disable
      (admin_role_name ∷ []) realm_state two_admins refl
