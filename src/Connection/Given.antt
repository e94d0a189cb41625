-- ===== src/Connection/Given.antt =====
-- Which fields of an update reach the patch of the repository.
use lightweight_saas_backend.Prelude.{
  Bool-cases, List, Option, [], ap, arith, inl, inr, none, refl, some, sym, true, ℕ, ◌∙◌, ◌≡◌,
}
use lightweight_saas_backend.Connection.Model.{Error, client_id_required, realm_required}
use lightweight_saas_backend.Connection.Operations.{
  UpdateInput, checked_patch, checking, reseal, sealed_option,
}
use lightweight_saas_backend.Connection.Repository.{ConfigPatch, is_given}
use lightweight_saas_backend.Connection.Service.{Env, nonempty, normalize_base_url, valid_name}
use lightweight_saas_backend.Secrets.{Sealed}
use lightweight_saas_backend.Store.{Result, Session, err, ok}
use lightweight_saas_backend.Store.Laws.{lift->>=-eq-ok}
use lightweight_saas_backend.Text.{Text, text_eq, trim_space}

checking-given :
    (check : Text → Result Error Text) (o p : Option Text)
    → checking check o ≡ ok p
    → is_given p ≡ is_given o
checking-given check none none h = refl
checking-given check none (some t) h = absurd (ground arith)
checking-given check (some x) p h = go (check x) p h
  where
    go :
        (answer : Result Error Text) (p : Option Text)
        → elim answer [ err e ↦ err e | ok t ↦ ok (some t) ] ≡ ok p
        → is_given p ≡ true
    go (err e) p k = absurd (ground arith)
    go (ok t) none k = absurd (ground arith)
    go (ok t) (some u) k = refl

sealed_option-given :
    (answer : Result Error Sealed) (p : Option Sealed)
    → sealed_option answer ≡ ok p
    → is_given p ≡ true
sealed_option-given (err e) p h = absurd (ground arith)
sealed_option-given (ok x) none h = absurd (ground arith)
sealed_option-given (ok x) (some y) h = refl

pub reseal-given :
    (env : Env) (id : Text) (o : Option (List ℕ)) (p : Option Sealed)
    → reseal env id o ≡ ok p
    → is_given p ≡ is_given o
unfolding reseal
reseal-given env id none none h = refl
reseal-given env id none (some x) h = absurd (ground arith)
reseal-given env id (some secret) p h = elim (Bool-cases (text_eq secret [])) [
  | inl empty ↦ absurd (ground (arith, empty, h))
  | inr given ↦ sealed_option-given _ p (rw given at h)
]

-- The patch has the fields that the input has.
pub checked_patch-given :
    (env : Env) (input : UpdateInput) (s t : Session) (patch : ConfigPatch)
    → checked_patch env input s ≡ (ok patch, t)
    → (is_given patch.base_url ≡ is_given input.base_url)
      × (is_given patch.realm ≡ is_given input.realm)
      × (is_given patch.client_id ≡ is_given input.client_id)
unfolding checked_patch
checked_patch-given env input s t patch h =
    let (name, _, h1) =
      lift->>=-eq-ok (checking (λ x. valid_name (trim_space x)) input.name) _ s t patch h in
    let (base_url, was_url, h2) =
      lift->>=-eq-ok (checking (normalize_base_url env.parse_url) input.base_url) _ s t patch h1 in
    let (realm, was_realm, h3) =
      lift->>=-eq-ok (checking (λ x. nonempty realm_required (trim_space x)) input.realm) _ s t
        patch h2 in
    let (client_id, was_client, h4) =
      lift->>=-eq-ok (checking (λ x. nonempty client_id_required (trim_space x)) input.client_id) _
        s t patch h3 in
    let is_patch : record { name = name; base_url = base_url; realm = realm; client_id = client_id }
        ≡ patch =
      ground arith in
    (
      ap (λ x. is_given x.base_url) (sym is_patch)
          ∙ checking-given _ input.base_url base_url was_url,
      ap (λ x. is_given x.realm) (sym is_patch) ∙ checking-given _ input.realm realm was_realm,
      ap (λ x. is_given x.client_id) (sym is_patch)
          ∙ checking-given _ input.client_id client_id was_client,
    )
