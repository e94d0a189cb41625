-- ===== src/Project/Service.antt =====
-- internal/project/service.go: validation, ownership, and the transactions of the mutations.
pub mod Credentials
pub mod Atomic
pub mod Laws
pub mod Minting
pub mod Issue
pub mod Ended
pub mod Revoked
mod Tests
use lightweight_saas_backend.Prelude.{
  Bool, List, Option, [], false, if◌then◌else◌, ltb, none, not, some, ℕ, ◌++◌, ◌||◌, ◌∷◌,
}
use lightweight_saas_backend.Audit.{Event}
use lightweight_saas_backend.Project.Model.{
  Credential, Project, credential_public_id, is_frozen, max_name_length, project_public_id,
}
use lightweight_saas_backend.Project.Repository.{
  Error, archive_project, count_active_credentials, create_project, credential_already_revoked,
  driver, get_project, internal, invalid_id, invalid_workspace_id, list_projects, name_required,
  name_taken, not_found, not_recorded, project_archived, update_project_name, workspace_archived,
  workspace_not_found,
}
use lightweight_saas_backend.Project.Token.{Hash}
use lightweight_saas_backend.PublicId.{
  Parsed, new, parse, parsed, project_prefix, unparsed, workspace_prefix,
}
use lightweight_saas_backend.Store.{
  M, Result, Writer, err, in_tx, lift, masking, ok, pure, record_tx, ◌>>=◌, ◌>>◌,
}
use lightweight_saas_backend.Text.{Text, codes, is_space, len, text_eq}
use lightweight_saas_backend.Workspace.Model.{Workspace, active, is_archived, public_id}
use lightweight_saas_backend.Workspace.Repository.{get_by_id}

-- `strings.Fields`: a rune joins the word that the next rune is in.
starts_in_word : Text → Bool
starts_in_word [] = false
starts_in_word (c ∷ cs) = not (is_space c)

grow : ℕ → List Text → List Text
grow c [] = (c ∷ []) ∷ []
grow c (w ∷ ws) = (c ∷ w) ∷ ws

pub fields : Text → List Text
unfolding starts_in_word grow
fields [] = []
fields (c ∷ cs) =
    let rest = fields cs in
    if is_space c then rest else if starts_in_word cs then grow c rest else (c ∷ []) ∷ rest

-- `strings.Join` with a space.
pub join : List Text → Text
join [] = []
join (w ∷ []) = w
join (w ∷ v ∷ ws) = w ++ 0x20 ∷ join (v ∷ ws)

unfoldable pub normalize_name : Text → Text
unfolding fields join
normalize_name name = join (fields name)

-- What varies from call to call: the lower case of the letters beyond ASCII, `lower` of PostgreSQL,
-- the random bytes of an id and of the two segments of a token, the clock, SHA-256, and the writer.
pub record Env : Type 0 where
  pub table : ℕ → ℕ
  pub fold : Text → Text
  pub entropy : Option (List ℕ)
  pub lookup_raw : Option (List ℕ)
  pub secret_raw : Option (List ℕ)
  pub now : ℕ
  pub hash : Hash
  pub writer : Writer

abbrev pub target_kind_project : Text
target_kind_project = codes "project"

abbrev pub target_kind_credential : Text
target_kind_credential = codes "project_credential"

unfoldable pub about_project : Project → Event → Event
about_project p e = record e {
  target = record { kind = target_kind_project; id = project_public_id p };
}

unfoldable pub about_credential : Credential → Event → Event
about_credential c e = record e {
  target = record { kind = target_kind_credential; id = credential_public_id c };
}

-- What a method makes of an error that it does not return as it is.
abbrev pub to_internal : {E : Type 0} → E → Error
to_internal e = internal

keep_name_taken : Error → Error
keep_name_taken name_taken = name_taken
keep_name_taken e = internal

keep_rename_errors : Error → Error
keep_rename_errors name_taken = name_taken
keep_rename_errors project_archived = project_archived
keep_rename_errors e = internal

pub keep_already_revoked : Error → Error
keep_already_revoked credential_already_revoked = credential_already_revoked
keep_already_revoked e = internal

-- `publicid.Parse` with the method's own error.
pub parsed_id : Error → Parsed → Result Error Text
parsed_id e (parsed id) = ok id
parsed_id e (unparsed _) = err e

pub required : {A : Type 0} → Error → Option A → Result Error A
required e none = err e
required e (some a) = ok a

unfoldable pub require_workspace : Text → M Error Workspace
unfolding parsed_id required
require_workspace public = do
  id ← lift (parsed_id invalid_workspace_id (parse workspace_prefix public))
  row ← masking to_internal (get_by_id id)
  lift (required workspace_not_found row)

pub writable : Workspace → Result Error Workspace
writable ws = if is_archived ws then err workspace_archived else ok ws

unfoldable pub require_writable_workspace : Text → M Error Workspace
unfolding writable
require_writable_workspace public = do ws ← require_workspace public; lift (writable ws)

-- A project of another workspace is as absent as one that never was.
pub owned : Workspace → Option Project → Result Error Project
owned ws none = err not_found
owned ws (some p) = if text_eq p.workspace_id ws.id then ok p else err not_found

unfoldable pub resolve : Text → Text → M Error Project
unfolding parsed_id owned
resolve workspace_public project_public = do
  ws ← require_workspace workspace_public
  id ← lift (parsed_id invalid_id (parse project_prefix project_public))
  row ← masking to_internal (get_project id)
  lift (owned ws row)

pub valid_name : Text → Result Error Text
valid_name name =
    if text_eq name [] || ltb max_name_length (len name) then err name_required else ok name

pub fresh_project : Text → Text → Text → ℕ → Project
fresh_project id workspace_id name now = record {
  id = id;
  workspace_id = workspace_id;
  name = name;
  status = active;
  created_at = now;
  updated_at = now;
  archived_at = none;
}

-- The transaction of `Create`.
pub insert_project : Env → Workspace → Project → Event → M Error Project
unfolding keep_name_taken
insert_project env ws p ev = in_tx driver (do
  masking keep_name_taken (create_project env.fold p)
  record_tx not_recorded env.writer (about_project p (record ev { workspace = public_id ws }))
  pure p)

unfoldable pub create : Env → Text → Text → Event → M Error Project
unfolding valid_name required fresh_project insert_project
create env workspace_public raw_name ev = do
  ws ← require_writable_workspace workspace_public
  name ← lift (valid_name (normalize_name raw_name))
  id ← lift (required internal (new env.entropy))
  insert_project env ws (fresh_project id ws.id name env.now) ev

unfoldable pub get : Text → Text → M Error Project
get workspace_public project_public = resolve workspace_public project_public

unfoldable pub list : Text → M Error (List Project)
list workspace_public = do
  ws ← require_workspace workspace_public
  masking to_internal (list_projects ws.id)

unfoldable pub active_credential_count : Option Project → M Error ℕ
active_credential_count none = pure 0
active_credential_count (some p) = masking to_internal (count_active_credentials p.id)

-- A mutation of a project and the record of it.
pub recorded_project : Env → M Error (Option Project) → Event → M Error Project
unfolding required
recorded_project env mutation ev = in_tx driver (do
  row ← mutation
  p ← lift (required not_found row)
  record_tx not_recorded env.writer (about_project p ev)
  pure p)

pub unfrozen : Project → Result Error Project
unfrozen p = if is_frozen p then err project_archived else ok p

unfoldable pub rename : Env → Text → Text → Text → Event → M Error Project
unfolding valid_name unfrozen recorded_project keep_rename_errors
rename env workspace_public project_public raw_name ev = do
  p ← resolve workspace_public project_public
  name ← lift (valid_name (normalize_name raw_name))
  _ ← lift (unfrozen p)
  recorded_project env (masking keep_rename_errors (update_project_name env.fold p.id name env.now))
      ev

unfoldable pub archive : Env → Text → Text → Event → M Error Project
unfolding recorded_project
archive env workspace_public project_public ev = do
  p ← resolve workspace_public project_public
  recorded_project env (masking to_internal (archive_project p.id env.now)) ev
