-- ===== src/Storage/Key.antt =====
-- The key of a record: `RecordKey` of local_storage.rs and csv_file_storage.rs, which declare the
-- same type, and its text `entity|authority|action|resource`, which the messages show and which is
-- the key of a record in Redis and DynamoDB.
pub mod Separator
pub mod Decoded
use affinidi_trust_registry.Domain.Ids.{EntityId, AuthorityId, Action, Resource}
use affinidi_trust_registry.Domain.TrustRecord.{TrustRecord}
use affinidi_trust_registry.Storage.Repository.{TrustRecordQuery}
use affinidi_trust_registry.Prelude.{
  String, ◌<>◌, Bool, true, ◌&&◌, ◌≡◌, ◌↔◌, Eq, ◌==◌, string_eq, String-discrete, arith,
}

pub record RecordKey : Type 0 where
  pub entity_id : EntityId
  pub authority_id : AuthorityId
  pub action : Action
  pub resource : Resource

-- `RecordKey::from_record`
unfoldable pub from_record : TrustRecord → RecordKey
from_record r = record {
  entity_id = r.entity_id;
  authority_id = r.authority_id;
  action = r.action;
  resource = r.resource;
}

-- The key that `delete` builds from its query
unfoldable pub from_query : TrustRecordQuery → RecordKey
from_query q = record {
  entity_id = q.entity_id;
  authority_id = q.authority_id;
  action = q.action;
  resource = q.resource;
}

-- The derived equality
unfoldable pub RecordKey-discrete : Discrete RecordKey
RecordKey-discrete = hlevel String-discrete

instance abbrev pub key_eq : Eq RecordKey
key_eq = record { dec = RecordKey-discrete }

-- `matches_query`
unfoldable pub matches_query : TrustRecord → TrustRecordQuery → Bool
matches_query r q =
    r.entity_id.text == q.entity_id.text
    && r.authority_id.text == q.authority_id.text
    && r.action.text == q.action.text
    && r.resource.text == q.resource.text

-- `format!("{}|{}|{}|{}", …)`
unfoldable pub generate_key : EntityId → AuthorityId → Action → Resource → String
generate_key entity_id authority_id action resource =
    entity_id.text <> "|" <> authority_id.text <> "|" <> action.text <> "|" <> resource.text

abbrev pub key_text : RecordKey → String
key_text k = generate_key k.entity_id k.authority_id k.action k.resource

-- A record matches a query exactly when they have the same key.
pub matches_query_iff :
    (r : TrustRecord) (q : TrustRecordQuery)
    → (matches_query r q ≡ true) ↔ (from_record r ≡ from_query q)
unfolding matches_query from_record from_query
matches_query_iff r q = ground arith
