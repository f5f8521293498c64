-- ===== src/Tests/Values.antt =====
-- JSON values as texts: a value is the program of a machine that builds it on a stack.
use mathlib.Core.Path.{ap₂}
use affinidi_trust_registry.Json.{
  Value, Items, Fields, unsigned, literal, null, bool, num, str, arr, obj, no_items, item,
  no_fields, field,
}
use affinidi_trust_registry.Tests.Coding.{join, parts, parts-join, unary, count, count-unary}
use affinidi_trust_registry.Prelude.{
  ℕ, String, true, false, ◌≡◌, refl, ap, ◌∙◌, Option, none, some, List, [], ◌∷◌, ◌==◌, string_eq,
  if◌then◌else◌, String-discrete,
}

pub data Op : Type 0 where
  op_null op_true op_false op_array op_object op_nil op_cons op_end : Op
  op_unsigned : ℕ → Op
  op_literal op_string op_field : String → Op

pub data Cell : Type 0 where
  a_value : Value → Cell
  an_array : Items → Cell
  an_object : Fields → Cell

-- The operations that build a value, before those that follow
abbrev mutual
  pub ops : Value → List Op → List Op
  ops null k = op_null ∷ k
  ops (bool true) k = op_true ∷ k
  ops (bool false) k = op_false ∷ k
  ops (num (unsigned n)) k = op_unsigned n ∷ k
  ops (num (literal t)) k = op_literal t ∷ k
  ops (str t) k = op_string t ∷ k
  ops (arr xs) k = item_ops xs (op_array ∷ k)
  ops (obj fs) k = field_ops fs (op_object ∷ k)

  item_ops : Items → List Op → List Op
  item_ops no_items k = op_nil ∷ k
  item_ops (item v xs) k = item_ops xs (ops v (op_cons ∷ k))

  field_ops : Fields → List Op → List Op
  field_ops no_fields k = op_end ∷ k
  field_ops (field s v fs) k = field_ops fs (ops v (op_field s ∷ k))

abbrev pub run : List Op → List Cell → Option Value
run [] (a_value v ∷ []) = some v
run [] _ = none
run (op_null ∷ k) st = run k (a_value null ∷ st)
run (op_true ∷ k) st = run k (a_value (bool true) ∷ st)
run (op_false ∷ k) st = run k (a_value (bool false) ∷ st)
run (op_unsigned n ∷ k) st = run k (a_value (num (unsigned n)) ∷ st)
run (op_literal t ∷ k) st = run k (a_value (num (literal t)) ∷ st)
run (op_string t ∷ k) st = run k (a_value (str t) ∷ st)
run (op_array ∷ k) (an_array xs ∷ st) = run k (a_value (arr xs) ∷ st)
run (op_array ∷ k) _ = none
run (op_object ∷ k) (an_object fs ∷ st) = run k (a_value (obj fs) ∷ st)
run (op_object ∷ k) _ = none
run (op_nil ∷ k) st = run k (an_array no_items ∷ st)
run (op_cons ∷ k) (a_value v ∷ an_array xs ∷ st) = run k (an_array (item v xs) ∷ st)
run (op_cons ∷ k) _ = none
run (op_end ∷ k) st = run k (an_object no_fields ∷ st)
run (op_field s ∷ k) (a_value v ∷ an_object fs ∷ st) = run k (an_object (field s v fs) ∷ st)
run (op_field s ∷ k) _ = none

mutual
  run-ops : (v : Value) (k : List Op) (st : List Cell) → run (ops v k) st ≡ run k (a_value v ∷ st)
  run-ops null k st = refl
  run-ops (bool true) k st = refl
  run-ops (bool false) k st = refl
  run-ops (num (unsigned n)) k st = refl
  run-ops (num (literal t)) k st = refl
  run-ops (str t) k st = refl
  run-ops (arr xs) k st = run-item_ops xs (op_array ∷ k) st
  run-ops (obj fs) k st = run-field_ops fs (op_object ∷ k) st

  run-item_ops :
      (xs : Items) (k : List Op) (st : List Cell)
      → run (item_ops xs k) st ≡ run k (an_array xs ∷ st)
  run-item_ops no_items k st = refl
  run-item_ops (item v xs) k st =
      run-item_ops xs (ops v (op_cons ∷ k)) st ∙ run-ops v (op_cons ∷ k) (an_array xs ∷ st)

  run-field_ops :
      (fs : Fields) (k : List Op) (st : List Cell)
      → run (field_ops fs k) st ≡ run k (an_object fs ∷ st)
  run-field_ops no_fields k st = refl
  run-field_ops (field s v fs) k st =
      run-field_ops fs (ops v (op_field s ∷ k)) st ∙ run-ops v (op_field s ∷ k) (an_object fs ∷ st)

-- Each operation as a tag and an argument
abbrev pub texts : List Op → List String
texts [] = []
texts (op_null ∷ k) = "null" ∷ "" ∷ texts k
texts (op_true ∷ k) = "true" ∷ "" ∷ texts k
texts (op_false ∷ k) = "false" ∷ "" ∷ texts k
texts (op_array ∷ k) = "array" ∷ "" ∷ texts k
texts (op_object ∷ k) = "object" ∷ "" ∷ texts k
texts (op_nil ∷ k) = "nil" ∷ "" ∷ texts k
texts (op_cons ∷ k) = "cons" ∷ "" ∷ texts k
texts (op_end ∷ k) = "end" ∷ "" ∷ texts k
texts (op_unsigned n ∷ k) = "unsigned" ∷ unary n ∷ texts k
texts (op_literal t ∷ k) = "literal" ∷ t ∷ texts k
texts (op_string t ∷ k) = "string" ∷ t ∷ texts k
texts (op_field t ∷ k) = "field" ∷ t ∷ texts k

abbrev pub op_of : String → String → Op
op_of tag t =
    if tag == "null"
    then op_null
    else if tag == "true"
    then op_true
    else if tag == "false"
    then op_false
    else if tag == "array"
    then op_array
    else if tag == "object"
    then op_object
    else if tag == "nil"
    then op_nil
    else if tag == "cons"
    then op_cons
    else if tag == "end"
    then op_end
    else if tag == "unsigned"
    then op_unsigned (count t)
    else if tag == "literal"
    then op_literal t
    else if tag == "string"
    then op_string t
    else op_field t

abbrev pub of_texts : List String → List Op
of_texts (tag ∷ t ∷ ts) = op_of tag t ∷ of_texts ts
of_texts _ = []

of_texts-texts : (k : List Op) → of_texts (texts k) ≡ k
unfolding String-discrete
of_texts-texts [] = refl
of_texts-texts (op_null ∷ k) = ap (λ l. op_null ∷ l) (of_texts-texts k)
of_texts-texts (op_true ∷ k) = ap (λ l. op_true ∷ l) (of_texts-texts k)
of_texts-texts (op_false ∷ k) = ap (λ l. op_false ∷ l) (of_texts-texts k)
of_texts-texts (op_array ∷ k) = ap (λ l. op_array ∷ l) (of_texts-texts k)
of_texts-texts (op_object ∷ k) = ap (λ l. op_object ∷ l) (of_texts-texts k)
of_texts-texts (op_nil ∷ k) = ap (λ l. op_nil ∷ l) (of_texts-texts k)
of_texts-texts (op_cons ∷ k) = ap (λ l. op_cons ∷ l) (of_texts-texts k)
of_texts-texts (op_end ∷ k) = ap (λ l. op_end ∷ l) (of_texts-texts k)
of_texts-texts (op_unsigned n ∷ k) =
    ap₂ (λ m l. op_unsigned m ∷ l) (count-unary n) (of_texts-texts k)
of_texts-texts (op_literal t ∷ k) = ap (λ l. op_literal t ∷ l) (of_texts-texts k)
of_texts-texts (op_string t ∷ k) = ap (λ l. op_string t ∷ l) (of_texts-texts k)
of_texts-texts (op_field t ∷ k) = ap (λ l. op_field t ∷ l) (of_texts-texts k)

unfoldable pub value_text : Value → String
value_text v = join (texts (ops v []))

unfoldable pub value_of : String → Option Value
value_of t = run (of_texts (parts false t)) []

pub value_of-value_text : (v : Value) → value_of (value_text v) ≡ some v
unfolding value_text value_of
value_of-value_text v =
    ap (λ l. run (of_texts l) []) (parts-join (texts (ops v [])))
    ∙ ap (λ l. run l []) (of_texts-texts (ops v []))
    ∙ run-ops v [] []
