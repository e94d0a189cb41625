-- ===== src/Workspace/Service/Tests.antt =====
-- A concrete installation with one workspace.
use lightweight_saas_backend.Prelude.{[], find, none, refl, some, ◌++◌, ◌∷◌, ◌≡◌, ◌⊎◌}
use lightweight_saas_backend.Examples.{acme, anyone, db_with, happening, ws_id, zero_id, zeros}
use lightweight_saas_backend.PublicId.{
  hex_encode, layout, new, parse, parsed, stamp, workspace_prefix,
}
use lightweight_saas_backend.Store.{Db, Session, in_tx, ok, query, record_tx, savepoint, statement}
use lightweight_saas_backend.Store.Laws.{IsAtomic}
use lightweight_saas_backend.Text.{codes, cut, len, text_eq, to_lower, trim_space, trim_suffix}
use lightweight_saas_backend.Workspace.Model.{Workspace, active, archived}
use lightweight_saas_backend.Workspace.Repository.{
  collides, create, get_by_id, has_id, put_away, update_name, update_rows, update_where,
}
use lightweight_saas_backend.Workspace.Service.{
  Env, about, archive_workspace, chosen_slug, create_workspace, rename_workspace, resolve_id,
}
use lightweight_saas_backend.Workspace.Service.Addressed.{
  Replaced, archive_workspace-Replaced, rename_workspace-Replaced,
}
use lightweight_saas_backend.Workspace.Service.Effects.{touched}
use lightweight_saas_backend.Workspace.Service.Invariant.{IsValid, mutations-IsValid}
use lightweight_saas_backend.Workspace.Service.Laws.{
  Created, IsName, create_workspace-Created, mutations-IsAtomic,
}
use lightweight_saas_backend.Workspace.Service.Runs.{archive_workspace_runs, changed, sound}
use lightweight_saas_backend.Workspace.Slug.{
  is_reserved, normalize_name, normalize_slug, slug_from_name, slug_pattern, validate_slug,
}

abbrev env : Env
env = record { table = λ c. c; entropy = some (zeros 16); now = 9; writer = anyone }

abbrev db : Db
db = db_with []

public_parses : parse workspace_prefix (codes "ws_" ++ ws_id) ≡ parsed ws_id
unfolding parse text_eq len trim_space to_lower cut
public_parses = refl

acme_found : find (has_id ws_id) db.workspaces ≡ some acme
unfolding text_eq
acme_found = refl

abbrev billing : Workspace
billing = record {
  id = zero_id;
  slug = codes "billing";
  name = codes "Billing";
  status = active;
  created_at = 9;
  updated_at = 9;
  archived_at = none;
}

abbrev after_create : Session
after_create =
    sound (record db { workspaces = acme ∷ billing ∷ []; audit = about billing happening ∷ [] })

created :
    create_workspace env (codes " Billing") [] happening (sound db) ≡ (ok billing, after_create)
unfolding create_workspace chosen_slug new create in_tx record_tx statement collides text_eq len
    trim_space to_lower trim_suffix normalize_name normalize_slug slug_from_name validate_slug
    slug_pattern is_reserved stamp layout hex_encode
created = refl

create_workspace-Created_example :
    Created env (codes " Billing") happening (sound db) after_create billing
create_workspace-Created_example =
    create_workspace-Created env (codes " Billing") [] happening (sound db) after_create billing
      created

mutations-IsAtomic_example :
    IsAtomic (create_workspace env (codes "Acme") [] happening)
    × IsAtomic (rename_workspace env (codes "ws_" ++ ws_id) (codes "Acme") happening)
    × IsAtomic (archive_workspace env (codes "ws_" ++ ws_id) happening)
mutations-IsAtomic_example =
    mutations-IsAtomic env (codes "ws_" ++ ws_id) (codes "Acme") [] happening

db_IsValid : IsValid db
unfolding collides text_eq
db_IsValid = ((refl, tt), (((λ e. refl), λ e. cc), tt))

mutations-IsValid_example :
    IsValid (create_workspace env (codes "Acme") [] happening (sound db)).1.db
    × IsValid (rename_workspace env (codes "ws_" ++ ws_id) (codes "Acme") happening (sound db)).1.db
    × IsValid (archive_workspace env (codes "ws_" ++ ws_id) happening (sound db)).1.db
mutations-IsValid_example =
    mutations-IsValid env (codes "ws_" ++ ws_id) (codes "Acme") [] happening (sound db) db_IsValid

abbrev acme_renamed : Workspace
acme_renamed = record acme { name = codes "Apex"; updated_at = 9 }

abbrev after_rename : Session
after_rename =
    sound (record db { workspaces = acme_renamed ∷ []; audit = about acme_renamed happening ∷ [] })

renames :
    rename_workspace env (codes "ws_" ++ ws_id) (codes "Apex ") happening (sound db)
    ≡ (ok acme_renamed, after_rename)
unfolding rename_workspace resolve_id update_name update_rows get_by_id savepoint in_tx record_tx
    statement query text_eq len trim_space to_lower cut normalize_name parse update_where
renames = refl

rename_workspace-Replaced_example :
    IsName (trim_space (codes "Apex "))
    × (row : Workspace) × Replaced
        (codes "ws_" ++ ws_id)
        happening
        (sound db)
        after_rename
        row
        acme_renamed
    × (row.status ≡ active)
    × (acme_renamed ≡ record row { name = trim_space (codes "Apex "); updated_at = 9 })
rename_workspace-Replaced_example =
    rename_workspace-Replaced env (codes "ws_" ++ ws_id) (codes "Apex ") happening (sound db)
      after_rename acme_renamed db_IsValid.0 renames

archive_workspace_runs_example :
    archive_workspace env (codes "ws_" ++ ws_id) happening (sound db) ≡ (
      ok (touched (put_away 9) acme),
      sound (changed ws_id (put_away 9) (touched (put_away 9) acme) happening db),
    )
archive_workspace_runs_example =
    archive_workspace_runs env (codes "ws_" ++ ws_id) ws_id happening db acme public_parses
      acme_found (λ e. refl)

archive_workspace-Replaced_example :
    (row : Workspace) × Replaced
      (codes "ws_" ++ ws_id)
      happening
      (sound db)
      (sound (changed ws_id (put_away 9) (touched (put_away 9) acme) happening db))
      row
      (touched (put_away 9) acme)
    × (((row.status ≡ active)
          × (touched (put_away 9) acme
              ≡ record row { status = archived; archived_at = some 9; updated_at = 9 }))
        ⊎ ((row.status ≡ archived) × (touched (put_away 9) acme ≡ row)))
archive_workspace-Replaced_example =
    archive_workspace-Replaced env (codes "ws_" ++ ws_id) happening (sound db)
      (sound (changed ws_id (put_away 9) (touched (put_away 9) acme) happening db))
      (touched (put_away 9) acme) db_IsValid.0 archive_workspace_runs_example
