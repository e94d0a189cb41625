-- ===== src/Connection/Model.antt =====
-- internal/connection/model.go: a connection, its life cycle and what each state permits.
use lightweight_saas_backend.Prelude.{
  Bool, Option, false, if◌then◌else◌, leb, none, not, some, true, ℕ, ◌&&◌, ◌+◌,
}
use lightweight_saas_backend.PublicId.{connection_prefix, format, workspace_prefix}
use lightweight_saas_backend.Result.{Result, err, ok}
use lightweight_saas_backend.Secrets.{Sealed}
use lightweight_saas_backend.Text.{Text}

pub data Provider : Type 0 where
  keycloak : Provider

pub data Status : Type 0 where
  draft active retired : Status

pub data Health : Type 0 where
  health_unknown healthy unhealthy : Health

pub data AccessMode : Type 0 where
  mode_unknown full read_only limited : AccessMode

-- Times are nanoseconds; a health message of nil reads as the empty one.
pub record Connection : Type 0 where
  pub id : Text
  pub workspace_id : Text
  pub name : Text
  pub provider : Provider
  pub status : Status
  pub base_url : Text
  pub realm : Text
  pub client_id : Text
  pub health : Health
  pub health_message : Text
  pub access_mode : AccessMode
  pub last_verified_at : Option ℕ
  pub created_at : ℕ
  pub updated_at : ℕ
  pub activated_at : Option ℕ
  pub retired_at : Option ℕ

-- A row of the table: the connection and its sealed secret.
pub record Row : Type 0 where
  pub conn : Connection
  pub sealed : Sealed

-- The errors of the package; `driver`, `not_recorded`, `id_unavailable` and `seal_failed` stand for
-- the errors of the driver, the audit writer, crypto/rand and the keyring, which pass as they are.
pub data Error : Type 0 where
  not_found invalid_id not_verified verification_expired already_active : Error
  workspace_has_active retired_error active_cannot_delete not_draft : Error
  name_required base_url_invalid realm_required client_id_required : Error
  client_secret_required provider_unsupported invalid_status_filter : Error
  workspace_not_found workspace_archived invalid_workspace_id invalid_request : Error
  driver not_recorded id_unavailable seal_failed : Error

-- `CanWrite`
unfoldable pub can_write : AccessMode → Bool
can_write mode_unknown = true
can_write full = true
can_write read_only = false
can_write limited = false

-- time.Hour
abbrev pub verify_validity : ℕ
verify_validity = 3600000000000

unfoldable pub connection_public_id : Connection → Text
connection_public_id c = format connection_prefix c.id

unfoldable pub workspace_public_id : Connection → Text
workspace_public_id c = format workspace_prefix c.workspace_id

abbrev pub is_active : Status → Bool
is_active draft = false
is_active active = true
is_active retired = false

abbrev pub is_draft : Status → Bool
is_draft draft = true
is_draft active = false
is_draft retired = false

abbrev pub is_retired : Status → Bool
is_retired draft = false
is_retired active = false
is_retired retired = true

abbrev pub is_healthy : Health → Bool
is_healthy health_unknown = false
is_healthy healthy = true
is_healthy unhealthy = false

-- `now.Sub(t) <= VerifyValidity`, a negative difference included.
within_validity : ℕ → Option ℕ → Bool
within_validity now none = false
within_validity now (some t) = leb now (t + verify_validity)

unfoldable pub is_verified : ℕ → Connection → Bool
unfolding within_validity
is_verified now c = is_healthy c.health && within_validity now c.last_verified_at

unfoldable pub verified_for_activation : ℕ → Connection → Result Error (Unit {0})
verified_for_activation now c =
    if not (is_healthy c.health)
    then err not_verified
    else if not (is_verified now c)
    then err verification_expired
    else ok tt

unfoldable pub activation_of : Status → Result Error (Unit {0}) → Result Error (Unit {0})
activation_of active verified = err already_active
activation_of retired verified = err retired_error
activation_of draft verified = verified

unfoldable pub can_activate : ℕ → Connection → Result Error (Unit {0})
unfolding verified_for_activation activation_of
can_activate now c = activation_of c.status (verified_for_activation now c)

unfoldable pub can_retire : Connection → Result Error (Unit {0})
can_retire c = if is_retired c.status then err retired_error else ok tt

unfoldable pub can_delete : Connection → Result Error (Unit {0})
can_delete c = if is_active c.status then err active_cannot_delete else ok tt

update_of : Status → Result Error (Unit {0})
update_of active = err not_draft
update_of retired = err retired_error
update_of draft = ok tt

unfoldable pub can_update : Connection → Result Error (Unit {0})
unfolding update_of
can_update c = update_of c.status
