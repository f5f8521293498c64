-- ===== src/Tests/Records.antt =====
-- Contexts, record types, the builder and the audit lines at concrete values.
use affinidi_trust_registry.Domain.RecordType.{authorization}
use affinidi_trust_registry.Domain.Context.{merge_json_values}
use affinidi_trust_registry.Domain.Context.Merge.{
  get_path, reaches, get_path-merge_additional, get_path-merge_base,
}
use affinidi_trust_registry.Domain.TrustRecord.{TrustRecord}
use affinidi_trust_registry.Domain.Builder.{TrustRecordBuilder, build, build-eq-ok_iff}
use affinidi_trust_registry.Json.{Value, Fields, str, obj, object, fields, get_field, get_key}
use affinidi_trust_registry.Json.Laws.{DistinctFields}
use affinidi_trust_registry.Audit.Model.{new, build_failure, build_unauthorized}
use affinidi_trust_registry.Audit.Logger.{emit_input, emit_json}
use affinidi_trust_registry.Audit.Logger.Extra.{emit_json-built}
use affinidi_trust_registry.Prelude.Text.Laws.{before}
use affinidi_trust_registry.Tests.Fixtures.{passport}
use affinidi_trust_registry.Prelude.{
  ℕ, String, ◌≡◌, ◌↔◌, refl, false, true, some, none, List, [], ◌∷◌, ok, String-discrete,
}

-- The context of a record and the context of a request
abbrev base : Fields
base =
    fields
      (("level", str "high") ∷ ("limits", object (("days", str "30") ∷ ("max", str "2") ∷ [])) ∷ [])

abbrev additional : Fields
additional = fields (("limits", object (("days", str "7") ∷ [])) ∷ [])

additional_distinct : DistinctFields additional
unfolding get_field
additional_distinct = (refl, (refl, tt, tt), tt)

abbrev days : List String
days = "limits" ∷ "days" ∷ []

abbrev max : List String
max = "limits" ∷ "max" ∷ []

days_there : get_path days (obj additional) ≡ some (str "7")
unfolding get_path get_key String-discrete
days_there = refl

max_not_reached : reaches max (obj additional) ≡ false
unfolding reaches get_field String-discrete
max_not_reached = refl

get_path-merge_additional_example :
    get_path days (merge_json_values (obj base) (obj additional)) ≡ some (str "7")
get_path-merge_additional_example =
    get_path-merge_additional days (obj base) (obj additional) (str "7") additional_distinct
      days_there refl

get_path-merge_base_example :
    get_path max (merge_json_values (obj base) (obj additional)) ≡ get_path max (obj base)
get_path-merge_base_example =
    get_path-merge_base max (obj base) (obj additional) additional_distinct max_not_reached

abbrev builder : TrustRecordBuilder
builder = record {
  entity_id = some passport.entity_id;
  authority_id = some passport.authority_id;
  action = some passport.action;
  resource = some passport.resource;
  recognized = none;
  context = passport.context;
  authorized = some true;
  record_type = some authorization;
}

abbrev built : TrustRecord
built = record passport { recognized = none }

build-eq-ok_iff_example : (build builder ≡ ok built) ↔ (
    (builder.entity_id ≡ some built.entity_id)
    × (builder.authority_id ≡ some built.authority_id)
    × (builder.action ≡ some built.action)
    × (builder.resource ≡ some built.resource)
    × (builder.record_type ≡ some built.record_type)
    × (builder.recognized ≡ built.recognized)
    × (builder.authorized ≡ built.authorized)
    × (builder.context ≡ built.context))
build-eq-ok_iff_example = build-eq-ok_iff builder built

abbrev show_time : ℕ → String
show_time n = "2025-01-01T00:00:00Z"

emit_json-built_example :
    ((v : Value) × (emit_json show_time (emit_input (build_failure 7 "no key=value pair" (new 3)))
        ≡ some v)
      × (get_key "audit.error" v ≡ some (str (before b'=' "no key=value pair"))))
    × ((v : Value) × (emit_json show_time
            (emit_input (build_unauthorized 7 "no key=value pair" (new 3)))
          ≡ some v)
        × (get_key "audit.reason" v ≡ some (str (before b'=' "no key=value pair"))))
emit_json-built_example = emit_json-built show_time 7 "no key=value pair" (new 3)
