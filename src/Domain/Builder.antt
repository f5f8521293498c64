-- ===== src/Domain/Builder.antt =====
-- `TrustRecordBuilder` of trust-registry/src/domain/mod.rs.
use affinidi_trust_registry.Domain.Ids.{EntityId, AuthorityId, Action, Resource}
use affinidi_trust_registry.Domain.RecordType.{
  RecordType, TrustRecordError, missing_entity_id, missing_authority_id, missing_action,
  missing_resource, missing_record_type,
}
use affinidi_trust_registry.Domain.Context
use affinidi_trust_registry.Domain.Context.{Context}
use affinidi_trust_registry.Domain.TrustRecord.{TrustRecord}
use affinidi_trust_registry.Prelude.{
  Bool, Option, none, some, Result, ok, ok_or, ◌>>=◌, ◌≡◌, ◌↔◌, arith,
}

pub record TrustRecordBuilder : Type 0 where
  pub entity_id : Option EntityId
  pub authority_id : Option AuthorityId
  pub action : Option Action
  pub resource : Option Resource
  pub recognized : Option Bool
  pub context : Context
  pub authorized : Option Bool
  pub record_type : Option RecordType

unfoldable pub new : TrustRecordBuilder
new = record {
  entity_id = none;
  authority_id = none;
  action = none;
  resource = none;
  recognized = none;
  context = Context.empty;
  authorized = none;
  record_type = none;
}

-- The setters of the builder
unfoldable pub entity_id : EntityId → TrustRecordBuilder → TrustRecordBuilder
entity_id id b = record b { entity_id = some id }

unfoldable pub authority_id : AuthorityId → TrustRecordBuilder → TrustRecordBuilder
authority_id id b = record b { authority_id = some id }

unfoldable pub action : Action → TrustRecordBuilder → TrustRecordBuilder
action a b = record b { action = some a }

unfoldable pub resource : Resource → TrustRecordBuilder → TrustRecordBuilder
resource r b = record b { resource = some r }

unfoldable pub recognized : Bool → TrustRecordBuilder → TrustRecordBuilder
recognized flag b = record b { recognized = some flag }

unfoldable pub context : Context → TrustRecordBuilder → TrustRecordBuilder
context c b = record b { context = c }

unfoldable pub authorized : Bool → TrustRecordBuilder → TrustRecordBuilder
authorized flag b = record b { authorized = some flag }

unfoldable pub record_type : RecordType → TrustRecordBuilder → TrustRecordBuilder
record_type t b = record b { record_type = some t }

-- `build`: the first required field that is missing, in this order, is the error.
unfoldable pub build : TrustRecordBuilder → Result TrustRecord TrustRecordError
build b = do
  entity ← ok_or b.entity_id missing_entity_id
  authority ← ok_or b.authority_id missing_authority_id
  act ← ok_or b.action missing_action
  res ← ok_or b.resource missing_resource
  kind ← ok_or b.record_type missing_record_type
  ok (record {
    entity_id = entity;
    authority_id = authority;
    action = act;
    resource = res;
    recognized = b.recognized;
    authorized = b.authorized;
    context = b.context;
    record_type = kind;
  })

-- A build succeeds exactly when the four identifiers and the record type have been set, and then
-- the record has every field as it was set; the two flags may be missing.
pub build-eq-ok_iff :
    (b : TrustRecordBuilder) (r : TrustRecord)
    → (build b ≡ ok r) ↔ (
        (b.entity_id ≡ some r.entity_id)
        × (b.authority_id ≡ some r.authority_id)
        × (b.action ≡ some r.action)
        × (b.resource ≡ some r.resource)
        × (b.record_type ≡ some r.record_type)
        × (b.recognized ≡ r.recognized)
        × (b.authorized ≡ r.authorized)
        × (b.context ≡ r.context))
unfolding build
build-eq-ok_iff b r = (λ h. ground arith, λ h. ground arith)
