-- ===== src/Domain/Ids.antt =====
-- The four identifier types of trust-registry/src/domain/mod.rs, each a new type over a text, and
-- the bundle of the four that a request names.
use affinidi_trust_registry.Prelude.{String}

pub record EntityId : Type 0 where
  pub text : String

pub record AuthorityId : Type 0 where
  pub text : String

pub record Action : Type 0 where
  pub text : String

pub record Resource : Type 0 where
  pub text : String

pub record TrustRecordIds : Type 0 where
  pub entity_id : EntityId
  pub authority_id : AuthorityId
  pub action : Action
  pub resource : Resource

unfoldable pub into_parts : TrustRecordIds → EntityId × AuthorityId × Action × Resource
into_parts ids = (ids.entity_id, ids.authority_id, ids.action, ids.resource)
