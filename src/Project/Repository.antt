-- ===== src/Project/Repository.antt =====
-- internal/project/repository.go: the statements on projects and credentials.
use lightweight_saas_backend.Prelude.{
  Bool, List, Option, [], any, false, find, if◌then◌else◌, length, ltb, none, not, select, some,
  true, ℕ, ◌&&◌, ◌++◌, ◌+◌, ◌||◌, ◌∷◌,
}
use lightweight_saas_backend.Project.Model.{Credential, Project, is_set, last_used_throttle}
use lightweight_saas_backend.Store.{
  Db, M, Result, err, lift, ok, pure, query, savepoint, statement, ◌>>=◌, ◌>>◌,
}
use lightweight_saas_backend.Text.{Text, text_eq}
use lightweight_saas_backend.Workspace.Model.{archived, is_active_status}

-- The errors of the package, with `driver` for those that the repository passes on and the service
-- turns into `internal`, and `not_recorded` for the audit writer's.
pub data Error : Type 0 where
  not_found project_archived name_taken name_required invalid_id : Error
  credential_not_found invalid_credential_id credential_already_revoked : Error
  credential_limit_reached label_required invalid_expiry : Error
  workspace_not_found workspace_archived invalid_workspace_id : Error
  internal driver not_recorded : Error
  invalid_scope : Option Text → Error

abbrev pub set_projects : Db → List Project → Db
set_projects db ps = record db { projects = ps }

abbrev pub set_credentials : Db → List Credential → Db
set_credentials db cs = record db { credentials = cs }

-- The primary key, and the unique index on the workspace and `lower(name)`; PostgreSQL's `lower` is
-- the argument `fold`.
unfoldable pub same_project_key : (Text → Text) → Project → Project → Bool
same_project_key fold p row =
    text_eq row.id p.id
    || (text_eq row.workspace_id p.workspace_id && text_eq (fold row.name) (fold p.name))

unfoldable pub create_project : (Text → Text) → Project → M Error (Unit {0})
create_project fold p = statement driver (λ db.
    if any (same_project_key fold p) db.projects
    then err name_taken
    else ok (tt, set_projects db (db.projects ++ p ∷ [])))

abbrev pub project_has_id : Text → Project → Bool
project_has_id id p = text_eq p.id id

-- `GetProject` and `loadProjectRow`
unfoldable pub get_project : Text → M Error (Option Project)
get_project id = query driver (λ db. find (project_has_id id) db.projects)

-- `ListProjects` without its order.
unfoldable pub list_projects : Text → M Error (List Project)
list_projects workspace_id =
    query driver (λ db. select (λ p. text_eq p.workspace_id workspace_id) db.projects)

-- WHERE id = ? AND status = 'active'
abbrev pub project_guarded : Text → Project → Bool
project_guarded id p = text_eq p.id id && is_active_status p.status

abbrev pub update_where {ℓ} : {A : Type ℓ} → (A → Bool) → (A → A) → List A → List A
update_where p f [] = []
update_where p f (x ∷ xs) = (if p x then f x else x) ∷ update_where p f xs

-- A renamed row that another row of its workspace collides with.
unfoldable pub rename_collides : (Text → Text) → Text → Text → List Project → Bool
rename_collides fold id name ps = elim (find (project_guarded id) ps) [
  | none ↦ false
  | some p ↦
      any
        (λ row.
          not (text_eq row.id id)
          && (text_eq row.workspace_id p.workspace_id && text_eq (fold row.name) (fold name)))
        ps
]

abbrev pub renamed : Text → ℕ → Project → Project
renamed name now p = record p { name = name; updated_at = now }

abbrev pub frozen : ℕ → Project → Project
frozen now p = record p { status = archived; archived_at = some now; updated_at = now }

-- The UPDATE of a name, which the unique index may refuse; whether a row was affected.
unfoldable pub update_project_rows : (Text → Text) → Text → Text → ℕ → M Error Bool
update_project_rows fold id name now = statement driver (λ db.
    if rename_collides fold id name db.projects
    then err name_taken
    else ok (
      any (project_guarded id) db.projects,
      set_projects db (update_where (project_guarded id) (renamed name now) db.projects),
    ))

renamed_project : Bool → Option Project → Result Error (Option Project)
renamed_project affected none = ok none
renamed_project affected (some p) =
    if not affected && not (is_active_status p.status) then err project_archived else ok (some p)

unfoldable pub update_project_name : (Text → Text) → Text → Text → ℕ → M Error (Option Project)
unfolding renamed_project
update_project_name fold id name now = savepoint driver (do
  affected ← update_project_rows fold id name now
  current ← get_project id
  lift (renamed_project affected current))

unfoldable pub freeze_rows : Text → ℕ → M Error (Unit {0})
freeze_rows id now =
    statement driver
      (λ db. ok (tt, set_projects db (update_where (project_guarded id) (frozen now) db.projects)))

unfoldable pub archive_project : Text → ℕ → M Error (Option Project)
archive_project id now = savepoint driver (do freeze_rows id now; get_project id)

-- The primary key and the unique index on the lookup segment.
unfoldable pub same_credential_key : Credential → Credential → Bool
same_credential_key c row = text_eq row.id c.id || text_eq row.key_prefix c.key_prefix

unfoldable pub insert_credential_row : Credential → M Error (Unit {0})
insert_credential_row c = statement driver (λ db.
    if any (same_credential_key c) db.credentials
    then err driver
    else ok (tt, set_credentials db (db.credentials ++ c ∷ [])))

-- `ListCredentials` without its order.
unfoldable pub list_credential_rows : Text → M Error (List Credential)
list_credential_rows project_id =
    query driver (λ db. select (λ c. text_eq c.project_id project_id) db.credentials)

abbrev pub credential_has_id : Text → Credential → Bool
credential_has_id id c = text_eq c.id id

unfoldable pub get_credential : Text → M Error (Option Credential)
get_credential id = query driver (λ db. find (credential_has_id id) db.credentials)

-- project_id = ? AND revoked_at IS NULL
abbrev pub counts_as_active : Text → Credential → Bool
counts_as_active project_id c = text_eq c.project_id project_id && not (is_set c.revoked_at)

unfoldable pub active_count : Text → List Credential → ℕ
active_count project_id cs = length (select (counts_as_active project_id) cs)

unfoldable pub count_active_credentials : Text → M Error ℕ
count_active_credentials project_id = query driver (λ db. active_count project_id db.credentials)

-- id = ? AND revoked_at IS NULL
abbrev pub revocable : Text → Credential → Bool
revocable id c = text_eq c.id id && not (is_set c.revoked_at)

abbrev pub revoked_at_by : ℕ → Text → Credential → Credential
revoked_at_by now by c = record c { revoked_at = some now; revoked_by = some by }

unfoldable pub revoke_rows : Text → Text → ℕ → M Error Bool
revoke_rows id by now = statement driver (λ db. ok (
  any (revocable id) db.credentials,
  set_credentials db (update_where (revocable id) (revoked_at_by now by) db.credentials),
))

unfoldable pub revoked_row : Bool → Option Credential → Result Error (Option Credential)
revoked_row affected none = ok none
revoked_row affected (some c) = if not affected then err credential_already_revoked else ok (some c)

unfoldable pub revoke_credential_row : Text → Text → ℕ → M Error (Option Credential)
unfolding revoked_row
revoke_credential_row id by now = savepoint driver (do
  affected ← revoke_rows id by now
  current ← get_credential id
  lift (revoked_row affected current))

abbrev pub has_prefix : Text → Credential → Bool
has_prefix key_prefix c = text_eq c.key_prefix key_prefix

unfoldable pub project_of_credential : Option Credential → M Error (Option (Credential × Project))
project_of_credential none = pure none
project_of_credential (some c) = do
  p ← query driver (λ db. find (project_has_id c.project_id) db.projects)
  pure (elim p [ none ↦ none | some q ↦ some (c, q) ])

-- `FindByKeyPrefix`: two reads, the second only where the first found a row.
unfoldable pub find_by_key_prefix : Text → M Error (Option (Credential × Project))
unfolding project_of_credential
find_by_key_prefix key_prefix = do
  found_row ← query driver (λ db. find (has_prefix key_prefix) db.credentials)
  project_of_credential found_row

-- last_used_at IS NULL OR last_used_at < now - throttle, with the throttle on the other side.
abbrev pub touchable : Text → ℕ → Credential → Bool
touchable id now c =
    text_eq c.id id
    && elim c.last_used_at [ none ↦ true | some t ↦ ltb (t + last_used_throttle) now ]

abbrev pub used_at : ℕ → Credential → Credential
used_at now c = record c { last_used_at = some now }

unfoldable pub touch_last_used : Text → ℕ → M Error (Unit {0})
touch_last_used id now = statement driver (λ db.
    ok (tt, set_credentials db (update_where (touchable id now) (used_at now) db.credentials)))
