-- ===== src/Workspace/Service.antt =====
-- internal/workspace/service.go: validation, and the transactions of the mutations.
pub mod Effects
pub mod Laws
pub mod Invariant
pub mod Runs
pub mod Located
pub mod Addressed
mod Tests
use lightweight_saas_backend.Prelude.{List, Option, [], if◌then◌else◌, ltb, none, some, ℕ}
use lightweight_saas_backend.Audit.{Event}
use lightweight_saas_backend.PublicId.{new, parse, parsed, unparsed, workspace_prefix}
use lightweight_saas_backend.Store.{
  M, Result, Writer, err, in_tx, lift, ok, pure, record_tx, ◌>>=◌, ◌>>◌,
}
use lightweight_saas_backend.Text.{Text, codes, len, text_eq}
use lightweight_saas_backend.Workspace.Model.{Workspace, active, public_id}
use lightweight_saas_backend.Workspace.Repository.{
  Error, StatusFilter, archive, create, driver, get_by_id, id_unavailable, invalid_id,
  invalid_request, invalid_status_filter, list_rows, name_required, not_found, not_recorded,
  parse_status_filter, slug_invalid_error, slug_reserved_error, update_name,
}
use lightweight_saas_backend.Workspace.Slug.{
  SlugError, max_name_length, normalize_name, normalize_slug, slug_from_name, slug_invalid,
  slug_reserved, validate_slug,
}

abbrev pub target_kind : Text
target_kind = codes "workspace"

-- The event with the workspace and the target that the method fills in.
unfoldable pub about : Workspace → Event → Event
about w e = record e {
  workspace = public_id w;
  target = record { kind = target_kind; id = public_id w };
}

unfoldable pub resolve_id : Text → Result Error Text
resolve_id public = elim (parse workspace_prefix public) [
  | parsed id ↦ ok id
  | unparsed e ↦ err invalid_id
]

pub valid_name : Text → Result Error Text
valid_name name =
    if text_eq name []
    then err name_required
    else if ltb max_name_length (len name)
    then err invalid_request
    else ok name

pub of_slug_error : Option SlugError → Text → Result Error Text
of_slug_error none slug = ok slug
of_slug_error (some slug_invalid) slug = err slug_invalid_error
of_slug_error (some slug_reserved) slug = err slug_reserved_error

-- The slug that was given, or the one derived from the name.
unfoldable pub chosen_slug : (ℕ → ℕ) → Text → Text → Text
chosen_slug table name slug =
    let given = normalize_slug table slug in
    if text_eq given [] then slug_from_name table name else given

pub valid_slug : Text → Result Error Text
unfolding of_slug_error
valid_slug slug = of_slug_error (validate_slug slug) slug

pub of_new : Option Text → Result Error Text
of_new none = err id_unavailable
of_new (some id) = ok id

-- What varies from call to call: the lower case of the letters beyond ASCII, the random bytes, the
-- clock and the audit writer.
pub record Env : Type 0 where
  pub table : ℕ → ℕ
  pub entropy : Option (List ℕ)
  pub now : ℕ
  pub writer : Writer

pub fresh_workspace : Text → Text → Text → ℕ → Workspace
fresh_workspace id slug name now = record {
  id = id;
  slug = slug;
  name = name;
  status = active;
  created_at = now;
  updated_at = now;
  archived_at = none;
}

-- The transaction of `Create`.
pub insert_recorded : Env → Workspace → Event → M Error Workspace
insert_recorded env w ev =
    in_tx driver (do create w; record_tx not_recorded env.writer (about w ev); pure w)

unfoldable pub create_workspace : Env → Text → Text → Event → M Error Workspace
unfolding valid_name valid_slug of_new fresh_workspace insert_recorded
create_workspace env raw_name raw_slug ev = do
  name ← lift (valid_name (normalize_name raw_name))
  slug ← lift (valid_slug (chosen_slug env.table name raw_slug))
  id ← lift (of_new (new env.entropy))
  insert_recorded env (fresh_workspace id slug name env.now) ev

pub present : Option Workspace → Result Error Workspace
present none = err not_found
present (some w) = ok w

unfoldable pub get_workspace : Text → M Error Workspace
unfolding present
get_workspace public = do id ← lift (resolve_id public); row ← get_by_id id; lift (present row)

pub of_filter : Option StatusFilter → Result Error StatusFilter
of_filter none = err invalid_status_filter
of_filter (some f) = ok f

unfoldable pub list_workspaces : Text → M Error (List Workspace)
unfolding of_filter
list_workspaces raw = do filter ← lift (of_filter (parse_status_filter raw)); list_rows filter

-- A mutation of the repository and the record of it, in one transaction.
pub recorded : Env → M Error (Option Workspace) → Event → M Error Workspace
unfolding present
recorded env mutation ev = in_tx driver (do
  row ← mutation
  w ← lift (present row)
  record_tx not_recorded env.writer (about w ev)
  pure w)

unfoldable pub rename_workspace : Env → Text → Text → Event → M Error Workspace
unfolding valid_name recorded
rename_workspace env public raw_name ev = do
  id ← lift (resolve_id public)
  name ← lift (valid_name (normalize_name raw_name))
  recorded env (update_name id name env.now) ev

unfoldable pub archive_workspace : Env → Text → Event → M Error Workspace
unfolding recorded
archive_workspace env public ev = do
  id ← lift (resolve_id public)
  recorded env (archive id env.now) ev
