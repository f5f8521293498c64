-- ===== src/Tests/Database.antt =====
-- A concrete database and text form of a record, with what the Redis adapter relies on of them.

use affinidi_trust_registry.Domain.RecordType.{RecordType, authorization, recognition}
use affinidi_trust_registry.Domain.TrustRecord.{TrustRecord}
use affinidi_trust_registry.Json.{null}
use affinidi_trust_registry.Storage.Redis.{RedisConnection, RecordText}
use affinidi_trust_registry.Storage.Redis.Laws.{IsRedis, removed}
use affinidi_trust_registry.Tests.Coding.{join, parts, parts-join}
use affinidi_trust_registry.Tests.Values.{value_text, value_of, value_of-value_text}
use affinidi_trust_registry.Prelude.HashMap.{HashMap, get, insert, remove, get-insert, get-remove}
use affinidi_trust_registry.Prelude.{
  String, Bool, true, false, ◌≡◌, refl, ap, ◌∙◌, Option, none, some, unwrap_or, is_some, List, [],
  ◌∷◌, Result, ok, err, string_eq,
}

abbrev pub flag_text : Option Bool → String
flag_text none = ""
flag_text (some true) = "t"
flag_text (some false) = "ff"

abbrev pub flag_of : String → Option Bool
flag_of String.[] = none
flag_of (String.◌∷◌ c String.[]) = some true
flag_of (String.◌∷◌ c (String.◌∷◌ d s)) = some false

abbrev pub type_text : RecordType → String
type_text authorization = ""
type_text recognition = "r"

abbrev pub type_of : String → RecordType
type_of String.[] = authorization
type_of (String.◌∷◌ c s) = recognition

abbrev pub record_parts : TrustRecord → List String
record_parts r =
    (r.entity_id.text
      ∷ r.authority_id.text
      ∷ r.action.text
      ∷ r.resource.text
      ∷ flag_text r.recognized
      ∷ flag_text r.authorized
      ∷ type_text r.record_type
      ∷ value_text r.context.value
      ∷ [])

abbrev pub written : TrustRecord → String
written r = join (record_parts r)

abbrev pub of_parts : List String → Result TrustRecord String
of_parts (a ∷ b ∷ c ∷ d ∷ e ∷ f ∷ g ∷ h ∷ _) = ok (record {
  entity_id = record { text = a };
  authority_id = record { text = b };
  action = record { text = c };
  resource = record { text = d };
  recognized = flag_of e;
  authorized = flag_of f;
  context = record { value = unwrap_or (value_of h) null };
  record_type = type_of g;
})
of_parts _ = err "not a record"

flag_lem : (o : Option Bool) → flag_of (flag_text o) ≡ o
flag_lem none = refl
flag_lem (some true) = refl
flag_lem (some false) = refl

type_lem : (t : RecordType) → type_of (type_text t) ≡ t
type_lem authorization = refl
type_lem recognition = refl

of_record_parts : (r : TrustRecord) → of_parts (record_parts r) ≡ ok r
of_record_parts r =
    rw
      (
        flag_lem r.recognized,
        flag_lem r.authorized,
        type_lem r.record_type,
        value_of-value_text r.context.value,
      )
      refl

pub of_parts-written : (r : TrustRecord) → of_parts (parts false (written r)) ≡ ok r
of_parts-written r = ap of_parts (parts-join (record_parts r)) ∙ of_record_parts r

abbrev pub text : RecordText
text = record { to_string = λ r. ok (written r); from_str = λ t. of_parts (parts false t) }

abbrev pub Database : Type 0
Database = HashMap String String

abbrev pub keys_of : Database → List String
keys_of [] = []
keys_of ((k, v) ∷ db) = k ∷ keys_of db

abbrev pub connection : RedisConnection Database
connection = record {
  get = λ k db. (ok (get k db), db);
  exists = λ k db. (ok (is_some (get k db)), db);
  set = λ k v db. (ok tt, insert k v db);
  del = λ k db. (ok (removed (get k db)), remove k db);
  keys = λ pattern_text db. (ok (keys_of db), db);
}

abbrev pub connection_law : IsRedis connection text
connection_law = record {
  contents = λ db k. get k db;
  IsOnline = λ db. Unit;
  after_set = insert;
  after_del = remove;
  get_online = λ k db o. refl;
  exists_online = λ k db o. refl;
  set_online = λ k v db o. refl;
  del_online = λ k db o. refl;
  contents_set = λ k v j db. get-insert j k v db;
  contents_del = λ k j db. get-remove j k db;
  online_set = λ k v db o. tt;
  online_del = λ k db o. tt;
  written = written;
  to_string_written = λ r. refl;
  from_str_written = of_parts-written;
}
