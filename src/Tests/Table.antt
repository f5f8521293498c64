-- ===== src/Tests/Table.antt =====
-- A concrete table of items, with what the DynamoDB adapter relies on of it.
use affinidi_trust_registry.Domain.TrustRecord.{TrustRecord}
use affinidi_trust_registry.Storage.DynamoDb.{DynamoDbClient, ItemCodec}
use affinidi_trust_registry.Tests.Coding.{parts}
use affinidi_trust_registry.Tests.Database.{written, of_parts}
use affinidi_trust_registry.Prelude.HashMap.{HashMap, get, insert, remove}
use affinidi_trust_registry.Prelude.{
  String, Option, none, some, unwrap_or, false, [], ◌∷◌, Result, ok, err, ◌==◌, string_eq,
  if◌then◌else◌,
}

abbrev Row : Type 0
Row = HashMap String String

abbrev Table : Type 0
Table = HashMap String Row

abbrev refusal : String
refusal = "service error"

abbrev key_of : Row → String
key_of item = unwrap_or (get "PK" item) ""

-- A write that needs the key to be free or taken
abbrev put : Row → String → Option Row → Table → Result (Unit {0}) String × Table
put item condition none table =
    if condition == "attribute_exists(PK)"
    then (err refusal, table)
    else (ok tt, insert (key_of item) item table)
put item condition (some old) table =
    if condition == "attribute_exists(PK)"
    then (ok tt, insert (key_of item) item table)
    else (err refusal, table)

abbrev erase : String → Option Row → Table → Result (Unit {0}) String × Table
erase k none table = (err refusal, table)
erase k (some old) table = (ok tt, remove k table)

abbrev client : DynamoDbClient Table
client = record {
  AttributeValue = String;
  text_value = λ t. t;
  get_item = λ key table. (ok (get (key_of key) table), table);
  put_item = λ item condition table. put item condition (get (key_of item) table) table;
  delete_item = λ key condition table. erase (key_of key) (get (key_of key) table) table;
  scan = λ table. (ok none, table);
}

abbrev codec : ItemCodec client
codec = record {
  to_item = λ r. ok (("record", written r) ∷ []);
  from_item = λ item. of_parts (parts false (unwrap_or (get "record" item) ""));
}
