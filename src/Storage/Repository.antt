-- ===== src/Storage/Repository.antt =====
-- trust-registry/src/storage/repository.rs: queries, errors, and the two repository traits. An
-- asynchronous method over a shared store is a function from the state of the store to the result
-- and the state that it leaves.
use affinidi_trust_registry.Domain.Ids.{
  EntityId, AuthorityId, Action, Resource, TrustRecordIds, into_parts,
}
use affinidi_trust_registry.Domain.TrustRecord.{TrustRecord}
use affinidi_trust_registry.Prelude.{String, ◌<>◌, Option, List, Result}

pub record TrustRecordQuery : Type 0 where
  pub entity_id : EntityId
  pub authority_id : AuthorityId
  pub action : Action
  pub resource : Resource

unfoldable pub new : EntityId → AuthorityId → Action → Resource → TrustRecordQuery
new entity_id authority_id action resource = record {
  entity_id = entity_id;
  authority_id = authority_id;
  action = action;
  resource = resource;
}

-- `TrustRecordQuery::from_ids`
unfoldable pub from_ids : TrustRecordIds → TrustRecordQuery
unfolding into_parts
from_ids ids =
    let (entity_id, authority_id, action, resource) = into_parts ids in
    record {
      entity_id = entity_id;
      authority_id = authority_id;
      action = action;
      resource = resource;
    }

pub record TrustRecordList : Type 0 where
  pub records : List TrustRecord

pub data RepositoryError : Type 0 where
  connection_failed query_failed serialization_failed : String → RepositoryError
  record_not_found record_already_exists validation_error : String → RepositoryError

-- `Display` of the error
unfoldable pub error_text : RepositoryError → String
error_text (connection_failed msg) = "Connection failed: " <> msg
error_text (query_failed msg) = "Query failed: " <> msg
error_text (serialization_failed msg) = "Serialization failed: " <> msg
error_text (record_not_found msg) = "Record not found: " <> msg
error_text (record_already_exists msg) = "Record already exists: " <> msg
error_text (validation_error msg) = "Validation error: " <> msg

-- What a method of a repository does with the store.
abbrev pub Access : Type 0 → Type 0 → Type 0
Access S A = S → Result A RepositoryError × S

pub record TrustRecordRepository (S : Type 0) : Type 0 where
  pub find_by_query : TrustRecordQuery → Access S (Option TrustRecord)

pub record TrustRecordAdminRepository (S : Type 0) : Type 0 where
  pub queries : TrustRecordRepository S
  pub open queries use *
  pub create : TrustRecord → Access S (Unit {0})
  pub update : TrustRecord → Access S (Unit {0})
  pub delete : TrustRecordQuery → Access S (Unit {0})
  pub list : Access S TrustRecordList
  pub read : TrustRecordQuery → Access S TrustRecord
