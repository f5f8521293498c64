-- ===== src/Domain/RecordType.antt =====
-- `RecordType` of trust-registry/src/domain/mod.rs with its text form, and `TrustRecordError`.
use Prim.Native.String.{[], ◌∷◌}
use affinidi_trust_registry.Prelude.Text.{lowercase_is, to_lowercase}
use affinidi_trust_registry.Prelude.{
  String, true, ◌↔◌, arith, Result, ok, err, ◌≡◌, refl, if◌then◌else◌,
}

pub data TrustRecordError : Type 0 where
  missing_entity_id missing_authority_id missing_action missing_resource : TrustRecordError
  missing_time_requested missing_time_evaluated missing_record_type : TrustRecordError
  invalid_record_type : TrustRecordError

-- `Display` of the error
unfoldable pub error_text : TrustRecordError → String
error_text missing_entity_id = "Entity ID is required"
error_text missing_authority_id = "Authority ID is required"
error_text missing_action = "Action is required"
error_text missing_resource = "Resource is required"
error_text missing_time_requested = "Time requested is required"
error_text missing_time_evaluated = "Time evaluated is required"
error_text missing_record_type = "Record type is required"
error_text invalid_record_type = "Record type is invalid"

pub data RecordType : Type 0 where
  authorization recognition : RecordType

-- `RecordType::from_str`
unfoldable pub from_str : String → Result RecordType TrustRecordError
unfolding lowercase_is
from_str s =
    if lowercase_is s "assertion"
    then ok authorization
    else if lowercase_is s "recognition"
    then ok recognition
    else err invalid_record_type

-- `Display` of a record type
unfoldable pub record_type_text : RecordType → String
record_type_text authorization = "assertion"
record_type_text recognition = "recognition"

pub from_str-record_type_text : (t : RecordType) → from_str (record_type_text t) ≡ ok t
unfolding from_str record_type_text
from_str-record_type_text authorization = refl
from_str-record_type_text recognition = refl

never_both :
    (s : String) → lowercase_is s "assertion" ≡ true → lowercase_is s "recognition" ≡ true → ⊥
unfolding lowercase_is to_lowercase
never_both [] p q = cc
never_both (c ∷ s) p q = ground arith

-- A text is read as a record type exactly if it is that type's text up to the case of its letters.
pub from_str-eq-ok_iff :
    (s : String) (t : RecordType)
    → (from_str s ≡ ok t) ↔ (lowercase_is s (record_type_text t) ≡ true)
unfolding from_str record_type_text
from_str-eq-ok_iff s authorization = (λ h. ground arith, λ h. ground arith)
from_str-eq-ok_iff s recognition =
    (λ h. ground (arith, never_both s), λ h. ground (arith, never_both s))
