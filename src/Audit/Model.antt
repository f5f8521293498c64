-- ===== src/Audit/Model.antt =====
-- trust-registry/src/audit/model.rs. A time is a number; the clock is an argument of the functions
-- that read it.
use affinidi_trust_registry.Domain.Ids.{EntityId, AuthorityId, Action, Resource}
use affinidi_trust_registry.Domain.TrustRecord.{TrustRecord}
use affinidi_trust_registry.Prelude.{ℕ, String, ◌<>◌, Option, none, some}

abbrev pub audit_role_admin : String
audit_role_admin = "ADMIN"

pub data AuditStatus : Type 0 where
  success failure unauthorized : AuditStatus

-- `Display` of a status
unfoldable pub status_text : AuditStatus → String
status_text success = "SUCCESS"
status_text failure = "FAILURE"
status_text unauthorized = "UNAUTHORIZED"

pub data AuditOperation : Type 0 where
  create update delete read list : AuditOperation

-- `Display` of an operation
unfoldable pub operation_text : AuditOperation → String
operation_text create = "CREATE"
operation_text update = "UPDATE"
operation_text delete = "DELETE"
operation_text read = "READ"
operation_text list = "LIST"

pub record AuditResource : Type 0 where
  pub entity_id : Option EntityId
  pub authority_id : Option AuthorityId
  pub action : Option Action
  pub resource : Option Resource

-- `AuditResource::from_record`
unfoldable pub from_record : TrustRecord → AuditResource
from_record r = record {
  entity_id = some r.entity_id;
  authority_id = some r.authority_id;
  action = some r.action;
  resource = some r.resource;
}

abbrev pub empty : AuditResource
empty = record { entity_id = none; authority_id = none; action = none; resource = none }

pub record AuditLog : Type 0 where
  pub target : String
  pub operation : AuditOperation
  pub actor : String
  pub status : AuditStatus
  pub resource : AuditResource
  pub extra : Option String
  pub thread_id : Option String
  pub timestamp : ℕ

-- `AuditLogBuilder` wraps the entry that it builds.
unfoldable pub new : (now : ℕ) → AuditLog
new now = record {
  target = audit_role_admin;
  operation = read;
  actor = "";
  status = success;
  resource = empty;
  extra = none;
  thread_id = none;
  timestamp = now;
}

unfoldable pub with_operation : AuditOperation → AuditLog → AuditLog
with_operation operation b = record b { operation = operation }

unfoldable pub with_actor : String → AuditLog → AuditLog
with_actor actor b = record b { actor = actor }

unfoldable pub with_resource : AuditResource → AuditLog → AuditLog
with_resource resource b = record b { resource = resource }

unfoldable pub with_thread_id : Option String → AuditLog → AuditLog
with_thread_id thread_id b = record b { thread_id = thread_id }

unfoldable pub build_success : (now : ℕ) → AuditLog → AuditLog
build_success now b = record b { status = success; timestamp = now }

unfoldable pub build_failure : (now : ℕ) → String → AuditLog → AuditLog
build_failure now error_message b = record b {
  status = failure;
  extra = some ("audit.error=" <> error_message);
  timestamp = now;
}

unfoldable pub build_unauthorized : (now : ℕ) → String → AuditLog → AuditLog
build_unauthorized now reason b = record b {
  status = unauthorized;
  extra = some ("audit.reason=" <> reason);
  timestamp = now;
}
