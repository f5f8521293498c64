-- ===== src/Domain/TrustRecord.antt =====
-- `TrustRecord` of trust-registry/src/domain/mod.rs.
use affinidi_trust_registry.Domain.Ids.{EntityId, AuthorityId, Action, Resource}
use affinidi_trust_registry.Domain.RecordType.{RecordType}
use affinidi_trust_registry.Domain.Context
use affinidi_trust_registry.Domain.Context.{Context}
use affinidi_trust_registry.Prelude.{Bool, false, Option, none, some, unwrap_or}

pub record TrustRecord : Type 0 where
  pub entity_id : EntityId
  pub authority_id : AuthorityId
  pub action : Action
  pub resource : Resource
  pub recognized : Option Bool
  pub authorized : Option Bool
  pub context : Context
  pub record_type : RecordType

-- `TrustRecord::new`
unfoldable pub new :
    EntityId
    → AuthorityId
    → Action
    → Resource
    → (recognized authorized : Bool) → Context
    → RecordType
    → TrustRecord
new entity_id authority_id action resource recognized authorized context record_type = record {
  entity_id = entity_id;
  authority_id = authority_id;
  action = action;
  resource = resource;
  recognized = some recognized;
  authorized = some authorized;
  context = context;
  record_type = record_type;
}

unfoldable pub is_recognized : TrustRecord → Bool
is_recognized r = unwrap_or r.recognized false

unfoldable pub is_authorized : TrustRecord → Bool
is_authorized r = unwrap_or r.authorized false

-- The additional context overrides the one of the record.
unfoldable pub merge_contexts : TrustRecord → Context → TrustRecord
merge_contexts r additional = record r { context = Context.merge r.context additional }

unfoldable pub none_authorized : TrustRecord → TrustRecord
none_authorized r = record r { authorized = none }

unfoldable pub none_recognized : TrustRecord → TrustRecord
none_recognized r = record r { recognized = none }
