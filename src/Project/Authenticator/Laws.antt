-- ===== src/Project/Authenticator/Laws.antt =====
-- Who is authenticated, whatever the state of the connection.
use mathlib.Core.Path.{subst}
use lightweight_saas_backend.Prelude.{
  Bool, Bool-cases, List, Option, Option-cases, ap, arith, false, find, inl, inr, none, refl, some,
  sym, true, ℕ, ◌∙◌, ◌∷◌, ◌≡◌,
}
use lightweight_saas_backend.Auth.{ProjectPrincipal}
use lightweight_saas_backend.Project.Authenticator.{
  accepts, authenticate_credential, decide, dropping, principal_of, touch, with_parsed,
}
use lightweight_saas_backend.Project.Model.{Credential, Project, is_usable, needs_last_used_touch}
use lightweight_saas_backend.Project.Repository.{
  driver, find_by_key_prefix, has_prefix, project_has_id, project_of_credential, touch_last_used,
}
use lightweight_saas_backend.Project.Token.{Hash, ParsedToken, parse_token, secret_matches}
use lightweight_saas_backend.Store.{Db, Session, ok, query, statement, written}
use lightweight_saas_backend.Store.Laws.{>>=-eq-ok, query-eq-ok}
use lightweight_saas_backend.Text.{Text}
use lightweight_saas_backend.Workspace.Model.{is_active_status}

-- The row of the unique lookup segment, with the project it belongs to.
abbrev pub joined : List Project → Option Credential → Option (Credential × Project)
joined ps none = none
joined ps (some c) = elim (find (project_has_id c.project_id) ps) [
  | none ↦ none
  | some q ↦ some (c, q)
]

abbrev pub matching : Text → Db → Option (Credential × Project)
matching lookup db = joined db.projects (find (has_prefix lookup) db.credentials)

-- A token that stands for a credential of a project, at a time, in the tables.
abbrev pub Genuine : Hash → ℕ → Text → Db → Credential → Project → Type 0
Genuine hash now token db c q =
    (t : ParsedToken) × (parse_token token ≡ some t)
    × (matching t.lookup db ≡ some (c, q))
    × (secret_matches hash t.secret c.key_hash ≡ true)
    × (is_usable now c ≡ true)
    × (is_active_status q.status ≡ true)

project_of_credential-eq-ok :
    (found_row : Option Credential) (s t : Session) (row : Option (Credential × Project))
    → project_of_credential found_row s ≡ (ok row, t)
    → row ≡ joined s.db.projects found_row
unfolding project_of_credential
project_of_credential-eq-ok none s t row h = ground arith
project_of_credential-eq-ok (some c) s t row h =
    let (p, u, read, rest) =
      >>=-eq-ok (query driver (λ db. find (project_has_id c.project_id) db.projects)) _ s t row h in
    let (told, same) = query-eq-ok driver _ s u p read in rw (joined, told) (ground arith)

find_by_key_prefix-eq-ok :
    (lookup : Text) (s t : Session) (row : Option (Credential × Project))
    → find_by_key_prefix lookup s ≡ (ok row, t)
    → row ≡ matching lookup s.db
unfolding find_by_key_prefix
find_by_key_prefix-eq-ok lookup s t row h =
    let (c, u, read, rest) =
      >>=-eq-ok (query driver (λ db. find (has_prefix lookup) db.credentials)) _ s t row h in
    let (told, same) = query-eq-ok driver _ s u c read in
    let joined_row = project_of_credential-eq-ok c u t row rest in
    joined_row ∙ rw same (rw told refl)

accepts-true :
    (hash : Hash) (now : ℕ) (secret : Text) (c : Credential) (q : Project)
    → accepts hash now secret (c, q) ≡ true
    → (secret_matches hash secret c.key_hash ≡ true)
      × (is_usable now c ≡ true)
      × (is_active_status q.status ≡ true)
unfolding accepts
accepts-true hash now secret c q h = (ground arith, ground arith, ground arith)

decide-eq-ok :
    (hash : Hash) (now : ℕ) (secret : Text) (row : Option (Credential × Project)) (s t : Session)
    (p : ProjectPrincipal)
    → decide hash now secret row s ≡ (ok (some p), t)
    → (c : Credential) × (q : Project) × (row ≡ some (c, q))
      × (accepts hash now secret (c, q) ≡ true)
      × (p ≡ principal_of c q)
unfolding decide
decide-eq-ok hash now secret none s t p h = absurd (ground arith)
decide-eq-ok hash now secret (some (c, q)) s t p h =
    elim (Bool-cases (accepts hash now secret (c, q))) [
      | inl accepted ↦
          let (_, u, touched, rest) = >>=-eq-ok (touch now c) _ s t (some p) (rw accepted at h) in
          (c, q, refl, accepted, ground arith)
      | inr denied ↦ absurd (ground arith)
    ]

with_parsed_sound :
    (hash : Hash) (now : ℕ) (o : Option ParsedToken) (s t : Session) (p : ProjectPrincipal)
    → with_parsed hash now o s ≡ (ok (some p), t)
    → (k : ParsedToken) × (c : Credential) × (q : Project) × (o ≡ some k)
      × (matching k.lookup s.db ≡ some (c, q))
      × (accepts hash now k.secret (c, q) ≡ true)
      × (p ≡ principal_of c q)
unfolding with_parsed
with_parsed_sound hash now none s t p h = absurd (ground arith)
with_parsed_sound hash now (some k) s t p h =
    let (row, u, read, rest) = >>=-eq-ok (find_by_key_prefix k.lookup) _ s t (some p) h in
    let (c, q, e, accepted, same) = decide-eq-ok hash now k.secret row u t p rest in
    (k, c, q, refl, sym (find_by_key_prefix-eq-ok k.lookup s u row read) ∙ e, accepted, same)

-- Whoever is authenticated presented a well-formed token; its lookup segment is that of a stored
-- credential whose digest is the digest of the secret, which is neither revoked nor expired, and
-- whose project is stored and active; the principal is that credential's. This holds in every
-- session, whichever statements fail.
pub authenticate_credential-Genuine :
    (hash : Hash) (now : ℕ) (token : Text) (s t : Session) (p : ProjectPrincipal)
    → authenticate_credential hash now token s ≡ (ok (some p), t)
    → (c : Credential) × (q : Project) × Genuine hash now token s.db c q × (p ≡ principal_of c q)
unfolding authenticate_credential
authenticate_credential-Genuine hash now token s t p h =
    let (k, c, q, e, m, accepted, same) = with_parsed_sound hash now (parse_token token) s t p h in
    let (matches, usable, unfrozen_project) = accepts-true hash now k.secret c q accepted in
    (c, q, (k, e, m, matches, usable, unfrozen_project), same)

pub joined-eq-some :
    (ps : List Project) (o : Option Credential) (c : Credential) (q : Project)
    → joined ps o ≡ some (c, q)
    → (o ≡ some c) × (find (project_has_id c.project_id) ps ≡ some q)
joined-eq-some ps none c q h = absurd (ground arith)
joined-eq-some ps (some d) c q h = elim (Option-cases (find (project_has_id d.project_id) ps)) [
  | inl nothing ↦ absurd (ground arith)
  | inr (p, e) ↦
      let same_c : d ≡ c = ground arith in
      let same_q : p ≡ q = ground arith in
      (
        ap some same_c,
        subst (λ x. find (project_has_id x.project_id) ps ≡ some q) same_c (e ∙ ap some same_q),
      )
]

touch-ok : (now : ℕ) (c : Credential) (s : Session) → (t : Session) × (touch now c s ≡ (ok tt, t))
unfolding touch dropping
touch-ok now c s = elim (Bool-cases (needs_last_used_touch now c)) [
  | inl due ↦ ((touch_last_used c.id now s).1, rw due refl)
  | inr fresh ↦ (s, rw fresh refl)
]

-- A connection whose next two statements, the reads of the lookup, succeed.
abbrev pub reading : Db → List Bool → Session
reading db faults = record { db = db; faults = false ∷ false ∷ faults }

find_by_key_prefix-reads :
    (lookup : Text) (db : Db) (faults : List Bool) (c : Credential) (q : Project)
    → matching lookup db ≡ some (c, q)
    → find_by_key_prefix lookup (reading db faults)
      ≡ (ok (some (c, q)), record { db = db; faults = faults })
unfolding find_by_key_prefix project_of_credential query statement written
find_by_key_prefix-reads lookup db faults c q h =
    let (stored, home) = joined-eq-some db.projects _ c q h in rw stored (rw home refl)

-- A token that stands for a credential is accepted: the two reads must succeed, and nothing else
-- needs to, since a failure to record the use is dropped.
pub authenticate_credential_accepts :
    (hash : Hash) (now : ℕ) (token : Text) (db : Db) (faults : List Bool) (c : Credential)
    (q : Project)
    → Genuine hash now token db c q
    → (t : Session) × (authenticate_credential hash now token (reading db faults)
        ≡ (ok (some (principal_of c q)), t))
unfolding authenticate_credential with_parsed decide accepts
authenticate_credential_accepts hash now token db faults c q
      (k, e, m, matches, usable, unfrozen_project) =
    let (t, touched) = touch-ok now c (record { db = db; faults = faults }) in
    (
      t,
      rw e (
          rw (find_by_key_prefix-reads k.lookup db faults c q m)
            (rw matches (rw usable (rw unfrozen_project (rw touched refl))))),
    )
