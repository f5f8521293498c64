-- ===== src/Json/Laws.antt =====
-- What a lookup finds after a change of a JSON object, and objects with no key twice.
use affinidi_trust_registry.Prelude.{String, ◌≡◌, none, some, ◌==◌, string_eq, if◌then◌else◌, arith}
use affinidi_trust_registry.Json.{
  Value, Fields, no_fields, field, obj, get_field, insert_field, remove_field,
}

pub get_field-insert_field :
    (j k : String) (v : Value) (fs : Fields)
    → get_field j (insert_field k v fs) ≡ (if k == j then some v else get_field j fs)
unfolding get_field insert_field
get_field-insert_field j k v no_fields = ground arith
get_field-insert_field j k v (field i w fs) = ground (arith, get_field-insert_field j k v fs)

pub get_field-remove_field :
    (j k : String) (fs : Fields)
    → get_field j (remove_field k fs) ≡ (if k == j then none else get_field j fs)
unfolding get_field remove_field
get_field-remove_field j k no_fields = ground arith
get_field-remove_field j k (field i w fs) = ground (arith, get_field-remove_field j k fs)

-- No key twice, at any depth of nested objects. `serde_json` builds no other value.
abbrev mutual
  pub IsDistinct : Value → Type 0
  IsDistinct (obj fs) = DistinctFields fs
  IsDistinct _ = Unit

  pub DistinctFields : Fields → Type 0
  DistinctFields no_fields = Unit
  DistinctFields (field k v fs) = (get_field k fs ≡ none) × IsDistinct v × DistinctFields fs
