-- ===== src/Connection/Tests.antt =====
-- A workspace with a connection in service and a draft that is ready.
use lightweight_saas_backend.Prelude.{
  List, [], all, false, length, none, not, refl, select, some, true, ◌&&◌, ◌++◌, ◌==◌, ◌∷◌, ◌≡◌,
  ◌⊎◌,
}
use lightweight_saas_backend.Connection.Activation.{Activated, activate_connection-Verified}
use lightweight_saas_backend.Connection.Atomic.{connection_mutations-IsAtomic}
use lightweight_saas_backend.Connection.Calls.{Request, activating, retiring, serve_all, updating}
use lightweight_saas_backend.Connection.Census.{census_of, safe_to_remove}
use lightweight_saas_backend.Connection.Completed.{rotate-complete}
use lightweight_saas_backend.Connection.Counted.{safe_to_remove-unused}
use lightweight_saas_backend.Connection.Editing.{
  LeavesTarget, SoundVerdict, needs_verification, update-SoundVerdict,
}
use lightweight_saas_backend.Connection.Invariant.{serve_all-IsTable}
use lightweight_saas_backend.Connection.Lifecycle.{Follows, Vacated, serve_all-Follows}
use lightweight_saas_backend.Connection.Model.{
  Connection, activation_of, can_activate, can_update, full, is_verified, verified_for_activation,
}
use lightweight_saas_backend.Connection.Operations.{
  UpdateInput, activate_connection, checked_patch, delete_connection, reseal, retire_connection,
  update, verify,
}
use lightweight_saas_backend.Connection.Repository.{
  ConfigPatch, activate, after_promote, after_update_config, ended, load_row, patched, promote_row,
  promoted, touches_target, two_active, unverified, update_config, update_guarded,
}
use lightweight_saas_backend.Connection.Rotated.{rotate-SameSecret}
use lightweight_saas_backend.Connection.RotatedTable.{Pairwise, SameSecret}
use lightweight_saas_backend.Connection.Rotation.{
  Rotator, after_read, apply_decision, complete, counted, decide_row, fail_with, finish, listed,
  opened_row, ran_through, read_locked, resealed, rotate, rotate_from, rotate_listed, rotate_one,
  rotate_rows, sealed_again, started, write_row,
}
use lightweight_saas_backend.Connection.Service.{
  CreateInput, Env, create, nonempty, recorded, require_workspace, resolve,
}
use lightweight_saas_backend.Connection.Table.{DistinctIds, IsTable}
use lightweight_saas_backend.Connection.View.{Keeps, view}
use lightweight_saas_backend.Examples.{
  anyone, connected, draft_row, envelope, envelope-IsAead, happening, new_ring, old_ring, ws_id,
  zero_id, zeros,
}
use lightweight_saas_backend.PublicId.{connection_prefix, parse, parsed}
use lightweight_saas_backend.Secrets.{key_of, open_sealed, open_with, seal, seal_with}
use lightweight_saas_backend.Store.{Session, in_tx, ok, query, record_tx, savepoint, statement}
use lightweight_saas_backend.Store.Laws.{IsAtomic}
use lightweight_saas_backend.Text.{Text, codes, cut, len, text_eq, to_lower, trim_space}
use lightweight_saas_backend.Workspace.Repository.{get_by_id}

abbrev env : Env
env = record {
  aead = envelope;
  ring = old_ring;
  entropy = some (zeros 16);
  nonce = some (zeros 2);
  parse_url = λ u. some (codes "https", codes "id.example.com");
  verify = λ target. record { ok_verdict = true; mode = full; summary = []; checked_at = 9 };
  now = 9;
  writer = anyone;
}

abbrev ws_public : Text
ws_public = codes "ws_" ++ ws_id

abbrev draft_public : Text
draft_public = codes "conn_" ++ zero_id

abbrev input : CreateInput
input = record {
  name = codes "Realm";
  provider = [];
  base_url = codes "https://id.example.com/";
  realm = codes "acme";
  client_id = codes "backend";
  client_secret = codes "secret";
}

abbrev edit : UpdateInput
edit = record {
  name = none;
  base_url = none;
  realm = some (codes "other");
  client_id = none;
  client_secret = none;
}

connection_mutations-IsAtomic_example :
    IsAtomic (create env ws_public input happening)
    × IsAtomic (update env ws_public draft_public edit happening)
    × IsAtomic (verify env ws_public draft_public happening)
    × IsAtomic (activate_connection env ws_public draft_public happening)
    × IsAtomic (retire_connection env ws_public draft_public happening)
    × IsAtomic (delete_connection env ws_public draft_public happening)
connection_mutations-IsAtomic_example =
    connection_mutations-IsAtomic env ws_public draft_public input edit happening

connected-IsTable : IsTable connected.connections
unfolding two_active text_eq
connected-IsTable = record {
  distinct = (refl, (refl, tt));
  one_active = refl;
  well_formed = (((refl, refl), refl), (((refl, refl), refl), tt));
}

-- An activation, an edit that a failing statement stops, and the end of the new incumbent.
abbrev requests : List Request
requests =
    record { env = env; call = activating ws_public draft_public happening; faults = [] }
    ∷ record {
      env = env;
      call = updating ws_public draft_public edit happening;
      faults = true ∷ [];
    }
    ∷ record { env = env; call = retiring ws_public draft_public happening; faults = [] }
    ∷ []

serve_all-IsTable_example : IsTable (serve_all requests connected).connections
serve_all-IsTable_example = serve_all-IsTable requests connected connected-IsTable

serve_all-Follows_example :
    Follows zero_id requests connected
    × (Vacated zero_id requests connected
        ⊎ Keeps
            (view zero_id connected.connections)
            (view zero_id (serve_all requests connected).connections))
serve_all-Follows_example = serve_all-Follows requests connected zero_id connected-IsTable

abbrev begin : Session
begin = record { db = connected; faults = [] }

abbrev after_activation : Session
after_activation = (activate_connection env ws_public draft_public happening begin).1

activates :
    activate_connection env ws_public draft_public happening begin
    ≡ (ok (promoted 9 draft_row).conn, after_activation)
unfolding activate_connection resolve require_workspace get_by_id load_row recorded in_tx savepoint
    statement query update_guarded promote_row activate two_active promoted ended record_tx
    can_activate verified_for_activation activation_of is_verified parse text_eq len trim_space
    to_lower cut after_promote
activates = refl

activate_connection-Verified_example : Activated env ws_public draft_public begin after_activation
activate_connection-Verified_example =
    activate_connection-Verified env ws_public draft_public happening begin after_activation
      (promoted 9 draft_row).conn activates

abbrev rotator : Rotator
rotator = record {
  aead = envelope;
  ring = new_ring;
  nonce = λ id. some (zeros 2);
  cancelled = λ id. false;
}

connected-DistinctIds : DistinctIds connected.connections
unfolding text_eq
connected-DistinctIds = (refl, (refl, tt))

rotate-SameSecret_example :
    Pairwise (SameSecret rotator) connected.connections (rotate rotator begin).1.1.db.connections
rotate-SameSecret_example =
    rotate-SameSecret rotator envelope-IsAead (λ id. refl) begin connected-DistinctIds

rotates : ((rotate rotator begin).1.0 ≡ ran_through) × (complete (rotate rotator begin).0 ≡ true)
unfolding rotate rotate_from rotate_listed rotate_rows rotate_one listed started query statement
    finish after_read read_locked decide_row opened_row sealed_again apply_decision write_row
    open_sealed open_with seal seal_with key_of counted complete text_eq fail_with resealed
rotates = (refl, refl)

rotate-complete_example :
    all (λ x. x.sealed.key_version == 2) (rotate rotator begin).1.1.db.connections ≡ true
rotate-complete_example =
    rotate-complete rotator envelope-IsAead (λ id. refl) begin connected-DistinctIds rotates.0
      rotates.1

safe_to_remove-unused_example :
    all
      (λ v.
        not (v == 2) && length (select (λ r. r.sealed.key_version == v) connected.connections) == 0)
      (safe_to_remove new_ring (census_of connected.connections))
    ≡ true
safe_to_remove-unused_example = safe_to_remove-unused new_ring connected.connections

abbrev after_edit : Session
after_edit = (update env ws_public draft_public edit happening begin).1

abbrev other_realm : ConfigPatch
other_realm = record {
  name = none;
  base_url = none;
  realm = some (codes "other");
  client_id = none;
}

abbrev edited_draft : Connection
edited_draft = (patched other_realm none 9 draft_row).conn

edits : update env ws_public draft_public edit happening begin ≡ (ok edited_draft, after_edit)
unfolding update resolve require_workspace get_by_id load_row recorded in_tx savepoint statement
    query update_guarded update_config patched unverified touches_target text_eq after_update_config
    record_tx parse len to_lower trim_space cut checked_patch reseal nonempty can_update
edits = refl

update-SoundVerdict_example :
    Pairwise (SoundVerdict 9) connected.connections after_edit.db.connections
    × (LeavesTarget edit
        ⊎ ((id : Text) × (parse connection_prefix draft_public ≡ parsed id)
            × (all (needs_verification id 9) after_edit.db.connections ≡ true)))
update-SoundVerdict_example =
    update-SoundVerdict env ws_public draft_public edit happening 9 begin after_edit edited_draft
      edits
