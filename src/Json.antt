-- ===== src/Json.antt =====
-- `serde_json::Value` and its `Map`, as far as the program looks into them. A JSON number that
-- the program only passes on is kept as its literal. Arrays and maps are lists of their own.
pub mod Laws
use affinidi_trust_registry.Prelude.{
  ℕ, String, Bool, true, false, Option, none, some, List, [], ◌∷◌, ◌==◌, string_eq, if◌then◌else◌,
  and_then,
}

pub data Number : Type 0 where
  unsigned : ℕ → Number
  literal : String → Number

mutual
  pub data Value : Type 0 where
    null : Value
    bool : Bool → Value
    num : Number → Value
    str : String → Value
    arr : Items → Value
    obj : Fields → Value

  pub data Items : Type 0 where
    no_items : Items
    item : Value → Items → Items

  pub data Fields : Type 0 where
    no_fields : Fields
    field : String → Value → Fields → Fields

abbrev pub is_object : Value → Bool
is_object (obj fs) = true
is_object _ = false

abbrev pub is_array : Value → Bool
is_array (arr xs) = true
is_array _ = false

abbrev pub as_str : Value → Option String
as_str (str s) = some s
as_str _ = none

unfoldable pub get_field : String → Fields → Option Value
get_field k no_fields = none
get_field k (field j v fs) = if j == k then some v else get_field k fs

-- `Map::insert`: a key that is there keeps its place.
unfoldable pub insert_field : String → Value → Fields → Fields
insert_field k v no_fields = field k v no_fields
insert_field k v (field j w fs) = if j == k then field k v fs else field j w (insert_field k v fs)

unfoldable pub remove_field : String → Fields → Fields
remove_field k no_fields = no_fields
remove_field k (field j w fs) =
    let rest = remove_field k fs in if j == k then rest else field j w rest

-- `value.get(key)`: none where the value is no object.
unfoldable pub get_key : String → Value → Option Value
unfolding get_field
get_key k (obj fs) = get_field k fs
get_key k _ = none

abbrev pub get_str : String → Value → Option String
get_str k v = and_then (get_key k v) as_str

-- `json!({ … })`, with its keys in the order of the source
abbrev pub fields : List (String × Value) → Fields
fields [] = no_fields
fields ((k, v) ∷ kvs) = field k v (fields kvs)

abbrev pub object : List (String × Value) → Value
object kvs = obj (fields kvs)

abbrev pub items : List Value → Items
items [] = no_items
items (v ∷ vs) = item v (items vs)

abbrev pub array : List Value → Value
array vs = arr (items vs)
