-- ===== src/Audit.antt =====
-- internal/audit/event.go: the event that a mutation records.
use lightweight_saas_backend.Text.{Text}

pub data ActorType : Type 0 where
  operator_actor project_actor : ActorType

pub record Actor : Type 0 where
  pub kind : ActorType
  pub subject : Text
  pub project_id : Text
  pub credential_id : Text

pub record Target : Type 0 where
  pub kind : Text
  pub id : Text

-- The request's address, agent, reason and metadata are left out: no function here reads them.
pub record Event : Type 0 where
  pub action : Text
  pub actor : Actor
  pub target : Target
  pub workspace : Text
