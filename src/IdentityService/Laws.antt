-- ===== src/IdentityService/Laws.antt =====
-- No guarded operation leaves a realm without an enabled admin.
use mathlib.Core.Path.{subst}
use lightweight_saas_backend.Prelude.{
  Bool, Bool-cases, List, Option, [], any, ap, arith, false, inl, inr, map, none, refl, some, sym,
  true, ℕ, ◌∙◌, ◌≡◌, ◌≢◌, ◌⊎◌,
}
use lightweight_saas_backend.IdentityService.{
  IdentityError, Provider, Talk, UpdateUserRequest, User, admin_role_name, after_listing,
  assert_not_last_admin, bad_request, changing_user, checked, checked_email, cleaned, delete_user,
  forbidden, guarded_removal, is_disable, is_self, is_valid_user_id, normalize_role_list, not_found,
  role_protected, role_reserved, taking_roles, then_talk, unassign_roles_from_user, unavailable,
  update_user, with_user_id,
}
use lightweight_saas_backend.IdentityService.Admins.{
  Admin, DistinctAdmins, admin_of, any-switched_off, any-switched_on, is_on, last_admin-false,
  switched, without_id,
}
use lightweight_saas_backend.Store.{Result, err, ok}
use lightweight_saas_backend.Text.{Text, text_eq}

-- What the service relies on of the identity provider, seen through the admins of its realm: a
-- listing tells them and changes nothing, is `not_found` only where there is none, and an operation on
-- one user changes, if anything, what it says of that user.
pub record IsRealm {S : Type 0} (p : Provider S) (admins : S → List Admin) : Type 0 where
  pub lists :
      (s : S) (us : List User)
      → (p.list_users_by_role admin_role_name s).0 ≡ ok us
      → map admin_of us ≡ admins s
  pub missing : (s : S) → (p.list_users_by_role admin_role_name s).0 ≡ err not_found → admins s ≡ []
  pub reads : (s : S) → admins (p.list_users_by_role admin_role_name s).1 ≡ admins s
  pub deletes :
      (id : Text) (s : S)
      → (admins (p.delete_user id s).1 ≡ admins s)
        ⊎ (admins (p.delete_user id s).1 ≡ without_id id (admins s))
  pub disables :
      (id : Text) (req : UpdateUserRequest) (s : S)
      → req.enabled ≡ some false
      → (admins (p.update_user id req s).1 ≡ admins s)
        ⊎ (admins (p.update_user id req s).1 ≡ map (switched id false) (admins s))
  pub updates :
      (id : Text) (req : UpdateUserRequest) (s : S)
      → is_disable req.enabled ≡ false
      → (admins (p.update_user id req s).1 ≡ admins s)
        ⊎ (admins (p.update_user id req s).1 ≡ map (switched id true) (admins s))
  pub unassigns :
      (id : Text) (roles : List Text) (s : S)
      → (admins (p.unassign_roles id roles s).1 ≡ admins s)
        ⊎ ((any (text_eq admin_role_name) roles ≡ true)
            × (admins (p.unassign_roles id roles s).1 ≡ without_id id (admins s)))

disables-eq : (enabled : Option Bool) → is_disable enabled ≡ true → enabled ≡ some false
disables-eq none h = absurd (ground arith)
disables-eq (some true) h = absurd (ground arith)
disables-eq (some false) h = refl

module _ {S : Type 0} (p : Provider S) (admins : S → List Admin) (realm : IsRealm p admins) where
  -- There is an enabled admin.
  abbrev pub HasAdmin : S → Type 0
  HasAdmin s = any is_on (admins s) ≡ true

  KeepsAdmin : {A : Type 0} → S → Result IdentityError A × S → Type 0
  KeepsAdmin s r = HasAdmin s → HasAdmin r.1

  -- Where the guard passes, the realm is as it was, and an enabled admin other than the target is
  -- there, if one was there at all.
  Passed : Text → S → Result IdentityError (Unit {0}) × S → Type 0
  Passed target s r =
      (admins r.1 ≡ admins s)
      × (r.0 ≡ ok tt → HasAdmin s → any is_on (without_id target (admins s)) ≡ true)

  listing-Passed :
      (target : Text) (s : S) (r : Result IdentityError (List User) × S)
      → DistinctAdmins (admins s)
      → p.list_users_by_role admin_role_name s ≡ r
      → Passed target s (after_listing target r)
  unfolding after_listing Passed
  listing-Passed target s (ok us, t) distinct e =
      let told = realm.lists s us (ap (λ x. x.0) e) in
      let same = ap (λ x. admins x.1) (sym e) ∙ realm.reads s in
      (
        same,
        λ let_go there.
            subst (λ xs. any is_on (without_id target xs) ≡ true) told
              (last_admin-false target us (subst DistinctAdmins (sym told) distinct) (ground arith)
                (ap (any is_on) told ∙ there)),
      )
  listing-Passed target s (err not_found, t) distinct e =
      let same = ap (λ x. admins x.1) (sym e) ∙ realm.reads s in
      let empty = realm.missing s (ap (λ x. x.0) e) in
      (same, λ let_go there. absurd (none_on (ap (any is_on) (sym empty) ∙ there)))
    where
      none_on : false ≢ true
      none_on h = absurd (ground arith)
  listing-Passed target s (err bad_request, t) distinct e =
      (ap (λ x. admins x.1) (sym e) ∙ realm.reads s, λ let_go. absurd (ground arith))
  listing-Passed target s (err forbidden, t) distinct e =
      (ap (λ x. admins x.1) (sym e) ∙ realm.reads s, λ let_go. absurd (ground arith))
  listing-Passed target s (err role_protected, t) distinct e =
      (ap (λ x. admins x.1) (sym e) ∙ realm.reads s, λ let_go. absurd (ground arith))
  listing-Passed target s (err role_reserved, t) distinct e =
      (ap (λ x. admins x.1) (sym e) ∙ realm.reads s, λ let_go. absurd (ground arith))
  listing-Passed target s (err unavailable, t) distinct e =
      (ap (λ x. admins x.1) (sym e) ∙ realm.reads s, λ let_go. absurd (ground arith))

  module _ {A : Type 0} where
    -- Behind the guard, an operation may take the target out.
    guarded-KeepsAdmin :
        (caller target : Text) (k : Talk S A) (s : S)
        → DistinctAdmins (admins s)
        → ((t : S)
            → any is_on (without_id target (admins t)) ≡ true
            → HasAdmin t
            → HasAdmin (k t).1)
        → KeepsAdmin s (guarded_removal p caller target k s)
    unfolding guarded_removal KeepsAdmin assert_not_last_admin Passed
    guarded-KeepsAdmin caller target k s distinct safe there =
        elim (Bool-cases (is_self caller target)) [
          | inl self ↦ rw self there
          | inr other ↦ rw other (
              go (after_listing target (p.list_users_by_role admin_role_name s))
                (listing-Passed target s (p.list_users_by_role admin_role_name s) distinct refl))
        ]
      where
        go :
            (r : Result IdentityError (Unit {0}) × S)
            → Passed target s r
            → HasAdmin (then_talk r (λ _. k)).1
        go (err e, t) (same, passed) = ap (any is_on) same ∙ there
        go (ok tt, t) (same, passed) =
            safe t (ap (λ xs. any is_on (without_id target xs)) same ∙ passed refl there)
              (ap (any is_on) same ∙ there)

    with_user_id-KeepsAdmin :
        (target : Text) (k : Talk S A) (s : S)
        → KeepsAdmin s (k s)
        → KeepsAdmin s (with_user_id target k s)
    unfolding KeepsAdmin
    with_user_id-KeepsAdmin target k s h there = elim (Bool-cases (is_valid_user_id target)) [
      | inl fine ↦ rw fine (h there)
      | inr bad ↦ rw bad there
    ]

    checked-KeepsAdmin :
        {B : Type 0} (r : Result IdentityError B) (k : B → Talk S A) (s : S)
        → ((b : B) → KeepsAdmin s (k b s))
        → KeepsAdmin s (checked r k s)
    unfolding KeepsAdmin
    checked-KeepsAdmin (err e) k s h there = there
    checked-KeepsAdmin (ok b) k s h there = h b there

  delete-KeepsAdmin :
      (caller target : Text) (s : S)
      → DistinctAdmins (admins s)
      → HasAdmin s
      → HasAdmin (delete_user p caller target s).1
  unfolding delete_user KeepsAdmin
  delete-KeepsAdmin caller target s distinct =
      with_user_id-KeepsAdmin target (guarded_removal p caller target (p.delete_user target)) s (
        guarded-KeepsAdmin caller target (p.delete_user target) s distinct (λ t others there.
          elim (realm.deletes target t) [
            | inl same ↦ ap (any is_on) same ∙ there
            | inr gone ↦ ap (any is_on) gone ∙ others
          ]))

  update-KeepsAdmin :
      (table : ℕ → ℕ) (caller target : Text) (req : UpdateUserRequest) (s : S)
      → DistinctAdmins (admins s)
      → HasAdmin s
      → HasAdmin (update_user p table caller target req s).1
  unfolding update_user KeepsAdmin
  update-KeepsAdmin table caller target req s distinct =
      with_user_id-KeepsAdmin target
        (checked (checked_email table req.email) (changing_user p caller target req)) s
        (checked-KeepsAdmin (checked_email table req.email) (changing_user p caller target req) s
          by_switch)
    where
      kept_on :
          (email : Option Text)
          → is_disable req.enabled ≡ false
          → KeepsAdmin s (p.update_user target (cleaned req email) s)
      kept_on email e there = elim (realm.updates target (cleaned req email) s e) [
        | inl same ↦ ap (any is_on) same ∙ there
        | inr on ↦ ap (any is_on) on ∙ any-switched_on target (admins s) there
      ]

      by_switch : (email : Option Text) → KeepsAdmin s (changing_user p caller target req email s)
      by_switch email = elim (Bool-cases (is_disable req.enabled)) [
        | inl off ↦ rw off (
            guarded-KeepsAdmin caller target (p.update_user target (cleaned req email)) s distinct
              (λ t others on.
                elim (realm.disables target (cleaned req email) t (disables-eq req.enabled off)) [
                  | inl same ↦ ap (any is_on) same ∙ on
                  | inr switched_off ↦
                      ap (any is_on) switched_off ∙ any-switched_off target (admins t) others
                ]))
        | inr on ↦ rw on (kept_on email on)
      ]

  unassign-KeepsAdmin :
      (table : ℕ → ℕ) (caller target : Text) (roles : List Text) (s : S)
      → DistinctAdmins (admins s)
      → HasAdmin s
      → HasAdmin (unassign_roles_from_user p table caller target roles s).1
  unfolding unassign_roles_from_user KeepsAdmin
  unassign-KeepsAdmin table caller target roles s distinct =
      with_user_id-KeepsAdmin target
        (checked (normalize_role_list table roles) (taking_roles p caller target)) s
        (checked-KeepsAdmin (normalize_role_list table roles) (taking_roles p caller target) s
          by_roles)
    where
      by_roles : (rs : List Text) → KeepsAdmin s (taking_roles p caller target rs s)
      by_roles rs = elim (Bool-cases (any (text_eq admin_role_name) rs)) [
        | inl named ↦ rw named (
            guarded-KeepsAdmin caller target (p.unassign_roles target rs) s distinct
              (λ t others there. elim (realm.unassigns target rs t) [
                | inl same ↦ ap (any is_on) same ∙ there
                | inr (_, gone) ↦ ap (any is_on) gone ∙ others
              ]))
        | inr unnamed ↦ rw unnamed (λ there. elim (realm.unassigns target rs s) [
          | inl same ↦ ap (any is_on) same ∙ there
          | inr (named, _) ↦ absurd (ground arith)
        ])
      ]

  -- Deleting a user, changing one and taking roles from one, in any state of the realm, by any caller,
  -- with success or an error: where the realm had an enabled admin, it has one after. The admins have
  -- distinct ids; the provider lists the admins truly, says `not_found` only of a realm without
  -- admins, and an operation on a user changes, of the admins, that user only.
  pub removals-HasAdmin :
      (table : ℕ → ℕ) (caller target : Text) (req : UpdateUserRequest) (roles : List Text) (s : S)
      → DistinctAdmins (admins s)
      → HasAdmin s
      → HasAdmin (delete_user p caller target s).1
        × HasAdmin (update_user p table caller target req s).1
        × HasAdmin (unassign_roles_from_user p table caller target roles s).1
  removals-HasAdmin table caller target req roles s distinct there = (
    delete-KeepsAdmin caller target s distinct there,
    update-KeepsAdmin table caller target req s distinct there,
    unassign-KeepsAdmin table caller target roles s distinct there,
  )
