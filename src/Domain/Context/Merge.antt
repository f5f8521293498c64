-- ===== src/Domain/Context/Merge.antt =====
-- What a merged context holds: each key, and each path of keys.
use affinidi_trust_registry.Prelude.{
  String, ◌≡◌, refl, Bool, true, false, Option, none, some, List, [], ◌∷◌, ◌==◌, string_eq,
  if◌then◌else◌, and_then, arith, ◌∙◌, String-discrete, subst, sym, Option-cases, inl, inr,
}
use affinidi_trust_registry.Json.{
  Value, obj, Fields, no_fields, field, is_object, get_field, insert_field, remove_field, get_key,
}
use affinidi_trust_registry.Json.Laws.{
  get_field-insert_field, get_field-remove_field, IsDistinct, DistinctFields,
}
use affinidi_trust_registry.Domain.Context.{merged_value, merge_json_values, merge_fields}

-- What stands under a key after a merge, from what stood under it in the two objects.
abbrev pub merged : Option Value → Option Value → Option Value
merged base none = base
merged none (some v) = some v
merged (some b) (some v) = some (merge_json_values b v)

-- One round of the loop.
merge_fields-field :
    (base : Fields) (j : String) (v : Value) (rest : Fields)
    → merge_fields base (field j v rest)
      ≡ merge_fields
          (insert_field j
            (merged_value (get_field j base) v (λ b. merge_json_values b v))
            (remove_field j base))
          rest
unfolding merge_json_values
merge_fields-field base j v rest = refl

-- What one round leaves under a key.
get_field-round :
    (k j : String) (v : Value) (base : Fields)
    → get_field k (insert_field j v (remove_field j base))
      ≡ (if j == k then some v else get_field k base)
get_field-round k j v base =
    ground
      (arith, get_field-insert_field k j v (remove_field j base), get_field-remove_field k j base)

some-merged_value :
    (o : Option Value) (v : Value)
    → some (merged_value o v (λ b. merge_json_values b v)) ≡ merged o (some v)
some-merged_value none v = refl
some-merged_value (some b) v = refl

merged-field :
    (k j : String) (v value : Value) (base rest : Fields)
    → get_field j rest ≡ none
    → some value ≡ merged (get_field j base) (some v)
    → merged (if j == k then some value else get_field k base) (get_field k rest)
      ≡ merged (get_field k base) (get_field k (field j v rest))
unfolding get_field
merged-field k j v value base rest fresh e = ground arith

-- Under each key a merged object holds: what the base object has there, if the additional object
-- has nothing; what the additional object has, if the base has nothing; and else the merge of both
-- values. The additional object is one with no key twice.
pub get_field-merge_fields :
    (k : String) (base additional : Fields)
    → DistinctFields additional
    → get_field k (merge_fields base additional)
      ≡ merged (get_field k base) (get_field k additional)
get_field-merge_fields k base no_fields d = unfold merge_json_values get_field in refl
get_field-merge_fields k base (field j v rest) (fresh, _, d) =
    let value = merged_value (get_field j base) v (λ b. merge_json_values b v) in
    let next = insert_field j value (remove_field j base) in
    rw merge_fields-field (
      get_field-merge_fields k next rest d
      ∙ rw (get_field-round k j value base)
          (merged-field k j v value base rest fresh (some-merged_value (get_field j base) v)))

-- The value at a path of keys through nested objects.
unfoldable pub get_path : List String → Value → Option Value
get_path [] v = some v
get_path (k ∷ path) v = and_then (get_key k v) (get_path path)

-- The value reaches the path: it has an entry there, or something other than an object above it.
unfoldable pub reaches : List String → Value → Bool
reaches [] v = true
reaches (k ∷ path) (obj fs) = elim (get_field k fs) [ none ↦ false | some v ↦ reaches path v ]
reaches (k ∷ path) _ = true

DistinctFields-get :
    (k : String) (fs : Fields) {v : Value}
    → DistinctFields fs
    → get_field k fs ≡ some v
    → IsDistinct v
unfolding get_field
DistinctFields-get k no_fields d e = cc
DistinctFields-get k (field j w fs) {v} (_, dw, d) e = elim (String-discrete j k) [
  | yes p ↦ subst IsDistinct (ground arith) dw
  | no p ↦ DistinctFields-get k fs d (ground arith)
]

-- A value that is no object replaces whatever the base holds.
merge_json_values_leaf : (base v : Value) → is_object v ≡ false → merge_json_values base v ≡ v
unfolding merge_json_values
merge_json_values_leaf (obj base) (obj fs) h = cc
merge_json_values_leaf _ _ h = refl

merged-none : (o : Option Value) → merged none o ≡ o
merged-none none = refl
merged-none (some v) = refl

-- A merge with an object, whatever the base is.
get_key-merge_json_values :
    (k : String) (base : Value) (fs : Fields)
    → DistinctFields fs
    → get_key k (merge_json_values base (obj fs)) ≡ merged (get_key k base) (get_field k fs)
unfolding get_key merge_json_values
get_key-merge_json_values k (obj base) fs d = get_field-merge_fields k base fs d
get_key-merge_json_values k _ fs d = sym (merged-none (get_field k fs))

-- At every path where the additional value holds something other than an object, the merged value
-- holds just that. The additional value is one with no key twice in an object.
pub get_path-merge_additional :
    (path : List String) (base additional v : Value)
    → IsDistinct additional
    → get_path path additional ≡ some v
    → is_object v ≡ false
    → get_path path (merge_json_values base additional) ≡ some v
unfolding get_path get_key
get_path-merge_additional [] base additional v d e leaf =
    ground (arith, merge_json_values_leaf base v)
get_path-merge_additional (k ∷ path) base (obj fs) v d e leaf =
    elim (Option-cases (get_field k fs)) [
      | inl missing ↦ ground arith
      | inr (w, found) ↦
          rw (get_key-merge_json_values k base fs d, found)
            (elim (Option-cases (get_key k base)) [
              | inl absent ↦ rw absent (ground arith)
              | inr (b, present) ↦ rw present (
                  get_path-merge_additional path b w v (DistinctFields-get k fs d found)
                    (ground arith) leaf)
            ])
    ]
get_path-merge_additional (k ∷ path) base _ v d e leaf = cc

reaches-none : (path : List String) (v : Value) → reaches path v ≡ false → get_path path v ≡ none
unfolding reaches get_path get_key
reaches-none [] v h = cc
reaches-none (k ∷ path) (obj fs) h = elim (Option-cases (get_field k fs)) [
  | inl missing ↦ ground arith
  | inr (w, found) ↦ rw found (reaches-none path w (ground arith))
]
reaches-none (k ∷ path) _ h = cc

-- At every path that the additional value does not reach, the merged value holds what the base
-- held, or nothing where the base held nothing.
pub get_path-merge_base :
    (path : List String) (base additional : Value)
    → IsDistinct additional
    → reaches path additional ≡ false
    → get_path path (merge_json_values base additional) ≡ get_path path base
unfolding get_path reaches
get_path-merge_base [] base additional d h = cc
get_path-merge_base (k ∷ path) base (obj fs) d h = elim (Option-cases (get_field k fs)) [
  | inl missing ↦ rw (get_key-merge_json_values k base fs d, missing) refl
  | inr (w, found) ↦
      rw (get_key-merge_json_values k base fs d, found)
        (elim (Option-cases (get_key k base)) [
          | inl absent ↦ rw absent (reaches-none path w (ground arith))
          | inr (b, present) ↦
              rw present
                (get_path-merge_base path b w (DistinctFields-get k fs d found) (ground arith))
        ])
]
get_path-merge_base (k ∷ path) base _ d h = cc
