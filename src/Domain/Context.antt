-- ===== src/Domain/Context.antt =====
-- `Context` of trust-registry/src/domain/mod.rs: a JSON value, and the merge of two of them.
pub mod Merge
use affinidi_trust_registry.Prelude.{Option, none, some}
use affinidi_trust_registry.Json.{
  Value, Fields, no_fields, field, obj, get_field, insert_field, remove_field,
}

-- The `match` on `base_map.remove(&key)`: with a value there, both are merged.
abbrev pub merged_value : Option Value → Value → (Value → Value) → Value
merged_value none additional_value merge_into = additional_value
merged_value (some base_value) additional_value merge_into = merge_into base_value

-- `merge_json_values`, recursive in the value that is merged in; `merge_fields` is its loop over
-- the entries of `additional_map`.
unfoldable mutual
  pub merge_json_values : Value → Value → Value
  merge_json_values (obj base_map) (obj additional_map) = obj (merge_fields base_map additional_map)
  merge_json_values _ additional_value = additional_value

  pub merge_fields : Fields → Fields → Fields
  merge_fields base_map no_fields = base_map
  merge_fields base_map (field key additional_value rest) =
      let value =
        merged_value (get_field key base_map) additional_value
          (λ base_value. merge_json_values base_value additional_value) in
      merge_fields (insert_field key value (remove_field key base_map)) rest

pub record Context : Type 0 where
  pub value : Value

abbrev pub empty : Context
empty = record { value = obj no_fields }

-- `Context::merge`
unfoldable pub merge : Context → Context → Context
unfolding merge_json_values
merge c additional = record { value = merge_json_values c.value additional.value }
