-- ===== src/Project/Service/Minting.antt =====
-- The steps of `CreateCredential`: its checks, the minting, and the transaction.
use mathlib.Core.Path.{subst}
use lightweight_saas_backend.Prelude.{
  List, [], any, ap, arith, false, if◌then◌else◌, ltb, refl, some, sym, true, ℕ, ◌++◌, ◌∙◌, ◌∷◌,
  ◌≡◌, ◌≢◌,
}
use lightweight_saas_backend.Audit.{Event}
use lightweight_saas_backend.Authz.Scope.{Normalized, bad_scope, scopes_ok}
use lightweight_saas_backend.Project.Model.{Credential, Project, max_active_credentials}
use lightweight_saas_backend.Project.Repository.{
  active_count, count_active_credentials, driver, insert_credential_row, internal, not_recorded,
  same_credential_key, set_credentials,
}
use lightweight_saas_backend.Project.Service.{
  Env, about_credential, required, to_internal, unfrozen,
}
use lightweight_saas_backend.Project.Service.Credentials.{
  CreateCredentialInput, below_limit, fresh_credential, insert_credential, mint_and_insert,
  of_normalized,
}
use lightweight_saas_backend.Project.Service.Laws.{required-eq-ok}
use lightweight_saas_backend.Project.Token.{MintedCredential, mint_credential}
use lightweight_saas_backend.PublicId.{new}
use lightweight_saas_backend.Store.{Db, Session, err, later_faults, masking, ok, record_tx}
use lightweight_saas_backend.Store.Laws.{
  >>=-eq-ok, in_tx-eq-ok, lift->>=-eq-ok, query-eq-ok, record_tx-eq-ok, statement-eq-ok,
}
use lightweight_saas_backend.Store.Reads.{masking-eq-ok}
use lightweight_saas_backend.Text.{Text}
use lightweight_saas_backend.Workspace.Model.{is_active_status}

pub nonempty-eq-ok :
    (n : Normalized) (scopes : List Text)
    → of_normalized n ≡ ok scopes
    → (n ≡ scopes_ok scopes) × (scopes ≢ [])
unfolding of_normalized
nonempty-eq-ok (bad_scope bad) scopes h = absurd (ground arith)
nonempty-eq-ok (scopes_ok []) scopes h = absurd (ground arith)
nonempty-eq-ok (scopes_ok (x ∷ xs)) scopes h =
    let same : x ∷ xs ≡ scopes = ground arith in (ap scopes_ok same, λ e. absurd (ground arith))

pub unfrozen-eq-ok : (p q : Project) → unfrozen p ≡ ok q → is_active_status p.status ≡ true
unfolding unfrozen
unfrozen-eq-ok p q h = ground arith

insert_row-eq-ok :
    (c : Credential) (s t : Session)
    → insert_credential_row c s ≡ (ok tt, t)
    → (any (same_credential_key c) s.db.credentials ≡ false)
      × (t.db ≡ set_credentials s.db (s.db.credentials ++ c ∷ []))
unfolding insert_credential_row
insert_row-eq-ok c s t h =
    let k =
      statement-eq-ok driver
        (λ db.
          if any (same_credential_key c) db.credentials
          then err driver
          else ok (tt, set_credentials db (db.credentials ++ c ∷ [])))
        s t tt h in
    (ground arith, ground arith)

insert_credential-eq-ok :
    (env : Env) (c : Credential) (token : Text) (ev : Event) (s t : Session) (r : Credential × Text)
    → insert_credential env c token ev s ≡ (ok r, t)
    → (r ≡ (c, token))
      × (any (same_credential_key c) s.db.credentials ≡ false)
      × (env.writer (about_credential c ev) ≡ true)
      × (t.db ≡ record s.db {
        credentials = s.db.credentials ++ c ∷ [];
        audit = s.db.audit ++ about_credential c ev ∷ [];
      })
unfolding insert_credential
insert_credential-eq-ok env c token ev s t r h =
    let (u, inner, same) = in_tx-eq-ok driver _ s t r h in
    let begun = record s { faults = later_faults s.faults } in
    let (_, v, masked, rest) =
      >>=-eq-ok (masking to_internal (insert_credential_row c)) _ begun u r inner in
    let (_, w, wrote, last) =
      >>=-eq-ok (record_tx not_recorded env.writer (about_credential c ev)) _ v u r rest in
    let unmasked = masking-eq-ok to_internal (insert_credential_row c) begun v tt masked in
    let (fresh, inserted) = insert_row-eq-ok c begun v unmasked in
    let (accepted, after) =
      record_tx-eq-ok not_recorded env.writer (about_credential c ev) v w wrote in
    let with_event : Db → Db = λ db. record db { audit = db.audit ++ about_credential c ev ∷ [] } in
    let last_eq : (r ≡ (c, token)) × (w ≡ u) = (ground arith, ground arith) in
    (
      last_eq.0,
      fresh,
      accepted,
      sym same ∙ ap (λ x. x.db) (sym last_eq.1) ∙ after ∙ ap with_event inserted,
    )

below_limit-eq-ok : (n : ℕ) → below_limit n ≡ ok tt → ltb n max_active_credentials ≡ true
unfolding below_limit
below_limit-eq-ok n h = ground arith

count-eq-ok :
    (id : Text) (s t : Session) (n : ℕ)
    → masking to_internal (count_active_credentials id) s ≡ (ok n, t)
    → (active_count id s.db.credentials ≡ n) × (t.db ≡ s.db)
unfolding count_active_credentials
count-eq-ok id s t n h =
    query-eq-ok driver (λ db. active_count id db.credentials) s t n
      (masking-eq-ok to_internal (count_active_credentials id) s t n h)

-- What `mint_and_insert` makes, in terms of the tables it began with.
abbrev pub Minted :
    Env
    → CreateCredentialInput
    → Project
    → Text
    → List Text
    → Event
    → Db
    → Db
    → Credential × Text
    → Type 0
Minted env input p label scopes ev before after r =
    (id : Text) × (minted : MintedCredential) × (ltb (active_count p.id before.credentials)
        max_active_credentials
      ≡ true)
    × (mint_credential env.hash env.lookup_raw env.secret_raw ≡ some minted)
    × (r ≡ (fresh_credential env p input label scopes id minted, minted.token))
    × (any (same_credential_key r.0) before.credentials ≡ false)
    × (env.writer (about_credential r.0 ev) ≡ true)
    × (after ≡ record before {
      credentials = before.credentials ++ r.0 ∷ [];
      audit = before.audit ++ about_credential r.0 ev ∷ [];
    })

pub mint_and_insert-eq-ok :
    (env : Env) (input : CreateCredentialInput) (p : Project) (label : Text) (scopes : List Text)
    (ev : Event) (s t : Session) (r : Credential × Text)
    → mint_and_insert env input p label scopes ev s ≡ (ok r, t)
    → Minted env input p label scopes ev s.db t.db r
unfolding mint_and_insert
mint_and_insert-eq-ok env input p label scopes ev s t r h =
    let (n, u, counted, rest) =
      >>=-eq-ok (masking to_internal (count_active_credentials p.id)) _ s t r h in
    let (count, same) = count-eq-ok p.id s u n counted in
    let (_, below, rest2) = lift->>=-eq-ok (below_limit n) _ u t r rest in
    let (id, fresh, rest3) = lift->>=-eq-ok (required internal (new env.entropy)) _ u t r rest2 in
    let (minted, mints, rest4) =
      lift->>=-eq-ok (required internal (mint_credential env.hash env.lookup_raw env.secret_raw)) _
        u t r rest3 in
    let c = fresh_credential env p input label scopes id minted in
    let (is_r, unique, accepted, after) =
      insert_credential-eq-ok env c minted.token ev u t r rest4 in
    let told : Minted env input p label scopes ev u.db t.db (c, minted.token) = (
      id,
      minted,
      rw (same, count) (below_limit-eq-ok n below),
      required-eq-ok internal _ minted mints,
      refl,
      unique,
      accepted,
      after,
    ) in
    subst (λ x. Minted env input p label scopes ev s.db t.db x) (sym is_r)
      (subst (λ db. Minted env input p label scopes ev db t.db (c, minted.token)) same told)
