-- ===== src/Project/Lifecycle.antt =====
-- Project credentials from their issue to their end: internal/project/service.go together with
-- authenticator.go and token.go.
use mathlib.Core.Path.{subst}
use lightweight_saas_backend.Prelude.{
  All, All-find, Bool-cases, List, [], any, ap, arith, false, find, inl, inr, length, refl, some,
  sym, true, ℕ, ◌++◌, ◌∙◌, ◌∷◌, ◌≡◌, ◌≢◌,
}
use lightweight_saas_backend.Audit.{Event}
use lightweight_saas_backend.Auth.{ProjectPrincipal}
use lightweight_saas_backend.Project.Authenticator.{authenticate_credential, principal_of}
use lightweight_saas_backend.Project.Authenticator.Laws.{
  Genuine, authenticate_credential-Genuine, joined, joined-eq-some, matching,
}
use lightweight_saas_backend.Project.Model.{
  Credential, Project, credential_public_id, is_expired, is_revoked, is_usable, project_public_id,
}
use lightweight_saas_backend.Project.Repository.{
  credential_has_id, has_prefix, project_has_id, same_credential_key,
}
use lightweight_saas_backend.Project.Service.{Env, archive}
use lightweight_saas_backend.Project.Service.Credentials.{
  CreateCredentialInput, create_credential, revoke_credential,
}
use lightweight_saas_backend.Project.Service.Ended.{AllArchived, archive-eq-ok}
use lightweight_saas_backend.Project.Service.Issue.{create_credential-Issued}
use lightweight_saas_backend.Project.Service.Revoked.{AllRevoked, revoke_credential-eq-ok}
use lightweight_saas_backend.Project.Token.{Hash, parse_token, secret_matches}
use lightweight_saas_backend.Project.Token.Laws.{parse_token-mint}
use lightweight_saas_backend.PublicId.{format}
use lightweight_saas_backend.Store.{Db, Session, ok}
use lightweight_saas_backend.Text.{Text, text_eq}
use lightweight_saas_backend.Text.Laws.{text_eq_iff}

find-append-last :
    (lookup : Text) (cs : List Credential) (c : Credential)
    → text_eq c.key_prefix lookup ≡ true
    → any (same_credential_key c) cs ≡ false
    → find (has_prefix lookup) (cs ++ c ∷ []) ≡ some c
unfolding same_credential_key
find-append-last lookup [] c h unique = rw h refl
find-append-last lookup (d ∷ cs) c h unique =
    let rest = find-append-last lookup cs c h (ground arith) in
    let other : text_eq d.key_prefix c.key_prefix ≡ false = ground arith in
    let differs : text_eq d.key_prefix lookup ≡ false =
      rw (← (text_eq_iff c.key_prefix lookup).0 h) other in
    rw differs rest

find-same-id :
    (id : Text) (ps : List Project) (p : Project) → find (project_has_id id) ps ≡ some p → p.id ≡ id
find-same-id id [] p h = absurd (ground arith)
find-same-id id (q ∷ ps) p h = elim (Bool-cases (text_eq q.id id)) [
  | inl same ↦
      let q_is_p : q ≡ p = ground arith in
      ap (λ x. x.id) (sym q_is_p) ∙ (text_eq_iff q.id id).0 same
  | inr other ↦ find-same-id id ps p (rw other at h)
]

-- The token that `CreateCredential` returns authenticates, at once and until it expires, as the
-- credential that was stored: in the tables as they were committed it stands for that credential
-- and its project. The two random segments are the 10 and 32 bytes that were asked for.
pub create_credential-Genuine :
    (env : Env) (workspace_public project_public : Text) (input : CreateCredentialInput)
    (ev : Event) (s t : Session) (c : Credential) (token : Text) (lookup_raw secret_raw : List ℕ)
    (later : ℕ)
    → create_credential env workspace_public project_public input ev s ≡ (ok (c, token), t)
    → env.lookup_raw ≡ some lookup_raw
    → env.secret_raw ≡ some secret_raw
    → length lookup_raw ≡ 10
    → length secret_raw ≡ 32
    → is_expired later c ≡ false
    → (p : Project) × Genuine env.hash later token t.db c p
unfolding is_usable is_revoked
create_credential-Genuine env workspace_public project_public input ev s t c token lookup_raw
      secret_raw later h lookup_eq secret_eq lookup_long secret_long lasts =
    let i = create_credential-Issued env workspace_public project_public input ev s t c token h in
    let (m, k, mints, parses, prefix, matches) =
      parse_token-mint env.hash lookup_raw secret_raw lookup_long secret_long in
    let same_m : i.minted ≡ m = ground (arith, i.mints) in
    let key : c.key_prefix ≡ k.lookup =
      i.prefix_stored ∙ ap (λ x. x.key_prefix) same_m ∙ sym prefix in
    let stored : find (has_prefix k.lookup) (s.db.credentials ++ c ∷ []) ≡ some c =
      find-append-last k.lookup s.db.credentials c ((text_eq_iff _ _).1 key) i.unique_key in
    let home : find (project_has_id c.project_id) s.db.projects ≡ some i.p =
      ap (λ id. find (project_has_id id) s.db.projects)
        (i.of_project
          ∙ find-same-id i.resolved.project_id s.db.projects i.p i.resolved.project_found)
      ∙ i.resolved.project_found in
    (
      i.p,
      (
        k,
        ap parse_token (i.token_returned ∙ ap (λ x. x.token) same_m) ∙ parses,
        ap (matching k.lookup) i.wrote ∙ rw stored (rw (joined, home) refl),
        ap (secret_matches env.hash k.secret) (i.hash_stored ∙ ap (λ x. x.key_hash) same_m)
            ∙ matches,
        ground (arith, i.live),
        i.project_active,
      ),
    )

-- Whoever `Archive` of a project and `RevokeCredential` leave without access: a credential of the
-- archived project, and the revoked credential.
archived-has-no-Genuine :
    (id token : Text) (hash : Hash) (now : ℕ) (db : Db) (c : Credential) (q : Project)
    → AllArchived id db.projects
    → Genuine hash now token db c q
    → q.id ≢ id
archived-has-no-Genuine id token hash now db c q ended (k, parses, m, matches, usable, live) e =
    let (stored, home) = joined-eq-some db.projects _ c q m in
    let (dead, _) = All-find _ _ db.projects q ended home in
    absurd (ground (arith, dead ((text_eq_iff q.id id).1 e)))

revoked-has-no-Genuine :
    (id token : Text) (hash : Hash) (now : ℕ) (db : Db) (c : Credential) (q : Project)
    → AllRevoked id db.credentials
    → Genuine hash now token db c q
    → c.id ≢ id
unfolding is_usable is_revoked
revoked-has-no-Genuine id token hash now db c q ended (k, parses, m, matches, usable, live) e =
    let (stored, home) = joined-eq-some db.projects _ c q m in
    let (dead, _) = All-find _ _ db.credentials c ended stored in
    absurd (ground (arith, dead ((text_eq_iff c.id id).1 e)))

find-same-credential :
    (id : Text) (cs : List Credential) (c : Credential)
    → find (credential_has_id id) cs ≡ some c
    → c.id ≡ id
find-same-credential id cs c h =
    let (_, same) = All-find (λ _. Unit {0}) (credential_has_id id) cs c (everywhere cs) h in
    (text_eq_iff c.id id).0 same
  where
    everywhere : (xs : List Credential) → All (λ _. Unit {0}) xs
    everywhere [] = tt
    everywhere (x ∷ xs) = (tt, everywhere xs)

project_public_id-injective :
    (q p : Project) → project_public_id q ≡ project_public_id p → q.id ≡ p.id
unfolding project_public_id format
project_public_id-injective q p e = ground arith

credential_public_id-injective :
    (c d : Credential) → credential_public_id c ≡ credential_public_id d → c.id ≡ d.id
unfolding credential_public_id format
credential_public_id-injective c d e = ground arith

-- Once `Archive` has answered with a project, no token authenticates for that project while the
-- tables stay as it left them: not at any time, and whichever statements of the later session fail.
pub archive-ends :
    (env : Env) (workspace_public project_public : Text) (ev : Event) (s t u v : Session)
    (p : Project) (hash : Hash) (now : ℕ) (token : Text) (caller : ProjectPrincipal)
    → archive env workspace_public project_public ev s ≡ (ok p, t)
    → u.db ≡ t.db
    → authenticate_credential hash now token u ≡ (ok (some caller), v)
    → caller.project_id ≢ project_public_id p
unfolding principal_of
archive-ends env workspace_public project_public ev s t u v p hash now token caller h same a e =
    let (r, resolved, is_p, ended) = archive-eq-ok env workspace_public project_public ev s t p h in
    let (c, q, g, is_caller) = authenticate_credential-Genuine hash now token u v caller a in
    let now_g = subst (λ db. Genuine hash now token db c q) same g in
    let same_id = project_public_id-injective q p (ap (λ x. x.project_id) (sym is_caller) ∙ e) in
    archived-has-no-Genuine r.id token hash now t.db c q ended now_g
      (same_id ∙ find-same-id r.id t.db.projects p is_p)

-- Once `RevokeCredential` has answered with a credential, no token authenticates as it while the
-- tables stay as it left them: not at any time, and whichever statements of the later session fail.
pub revoke_credential-ends :
    (env : Env) (workspace_public project_public credential_public by : Text) (ev : Event)
    (s t u v : Session) (d : Credential) (hash : Hash) (now : ℕ) (token : Text)
    (caller : ProjectPrincipal)
    → revoke_credential env workspace_public project_public credential_public by ev s ≡ (ok d, t)
    → u.db ≡ t.db
    → authenticate_credential hash now token u ≡ (ok (some caller), v)
    → caller.credential_id ≢ credential_public_id d
unfolding principal_of
revoke_credential-ends env workspace_public project_public credential_public by ev s t u v d hash
      now token caller h same a e =
    let (id, parses, is_d, ended) =
      revoke_credential-eq-ok env workspace_public project_public credential_public by ev s t d h in
    let (c, q, g, is_caller) = authenticate_credential-Genuine hash now token u v caller a in
    let now_g = subst (λ db. Genuine hash now token db c q) same g in
    let same_id =
      credential_public_id-injective c d (ap (λ x. x.credential_id) (sym is_caller) ∙ e) in
    revoked-has-no-Genuine id token hash now t.db c q ended now_g
      (same_id ∙ find-same-credential id t.db.credentials d is_d)
