-- ===== src/Tests/Fixtures.antt =====
-- Records, messages and parameters that the tests share.
use affinidi_trust_registry.Domain.RecordType.{authorization}
use affinidi_trust_registry.Domain.TrustRecord.{TrustRecord}
use affinidi_trust_registry.Storage.Repository.{TrustRecordQuery}
use affinidi_trust_registry.Storage.Key.{from_record}
use affinidi_trust_registry.Storage.Local.{LocalStorage}
use affinidi_trust_registry.Storage.Local.Map.{IsValidMap, Records}
use affinidi_trust_registry.Json.{Value, no_fields, str, object, get_key, get_str}
use affinidi_trust_registry.Didcomm.Message.{Message}
use affinidi_trust_registry.Didcomm.World.{Sdk, Profile, World}
use affinidi_trust_registry.Didcomm.Admin.Messages.{Decoder, RecordRequest, KeyRequest}
use affinidi_trust_registry.Didcomm.Admin.Handler.{HandlerContext, create_record_type}
use affinidi_trust_registry.Didcomm.Trqp.{QueryCodec}
use affinidi_trust_registry.Prelude.HashMap.{get}
use affinidi_trust_registry.Prelude.{
  String, true, none, some, unwrap_or, [], ◌∷◌, Result, ok, length, refl,
}

abbrev pub passport : TrustRecord
passport = record {
  entity_id = record { text = "did:alice" };
  authority_id = record { text = "did:state" };
  action = record { text = "issue" };
  resource = record { text = "passport" };
  recognized = some true;
  authorized = some true;
  context = record { value = object (("level", str "high") ∷ []) };
  record_type = authorization;
}

abbrev pub licence : TrustRecord
licence = record passport {
  resource = record { text = "licence" };
  context = record { value = str "none" };
}

abbrev pub passport_query : TrustRecordQuery
passport_query = record {
  entity_id = record { text = "did:alice" };
  authority_id = record { text = "did:state" };
  action = record { text = "issue" };
  resource = record { text = "passport" };
}

abbrev pub stored : Records
stored = (from_record passport, passport) ∷ []

pub stored-IsValidMap : IsValidMap stored
unfolding get
stored-IsValidMap = record { keyed = (refl, tt); distinct = (refl, tt) }

abbrev pub storage : LocalStorage
storage = record { records = stored }

abbrev pub sdk : Sdk
sdk = record {
  new_uuid = λ calls n. "uuid";
  now = λ calls. length calls;
  packed = λ calls. ok "sealed";
  forwarded = λ calls. ok tt;
}

abbrev pub profile : Profile
profile = record { alias = "registry"; did = "did:registry"; mediator = "did:mediator" }

abbrev part : String → Value → String
part k v = unwrap_or (get_str k v) ""

abbrev key_request : Value → Result KeyRequest String
key_request v = ok (record {
  entity_id = part "entity_id" v;
  authority_id = part "authority_id" v;
  action = part "action" v;
  resource = part "resource" v;
})

abbrev record_request : Value → Result RecordRequest String
record_request v = ok (record {
  entity_id = part "entity_id" v;
  authority_id = part "authority_id" v;
  action = part "action" v;
  resource = part "resource" v;
  recognized = true;
  authorized = true;
  context = get_key "context" v;
  record_type = part "record_type" v;
})

abbrev pub decoder : Decoder
decoder = record {
  create_request = record_request;
  update_request = record_request;
  delete_request = key_request;
  read_request = key_request;
}

abbrev pub codec : QueryCodec
codec = record { query = λ v. ok passport_query; record_value = λ r. ok r.context.value }

abbrev pub admin : String
admin = "did:admin"

abbrev pub create_licence : Message
create_licence = record {
  id = "message-1";
  type_ = create_record_type;
  body = object (
      ("entity_id", str "did:alice")
      ∷ ("authority_id", str "did:state")
      ∷ ("action", str "issue")
      ∷ ("resource", str "licence")
      ∷ ("record_type", str "assertion")
      ∷ []);
  from = some admin;
  to = some ("did:registry" ∷ []);
  thid = some "thread-1";
  pthid = none;
  headers = no_fields;
}

abbrev pub context_of_admin : HandlerContext
context_of_admin = record { sender_did = admin; thid = some "thread-1"; pthid = none }

abbrev pub context_of_stranger : HandlerContext
context_of_stranger = record { sender_did = "did:stranger"; thid = some "thread-1"; pthid = none }

abbrev pub world : World LocalStorage
world = record { store = storage; calls = [] }
