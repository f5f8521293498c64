-- ===== src/Tests/Client.antt =====
-- The client's messages, read as serde reads them.
use affinidi_trust_registry.Storage.Registry.{delete_in}
use affinidi_trust_registry.Json.{Value, Fields, obj, get_key, get_field}
use affinidi_trust_registry.Didcomm.Admin.Messages.{Decoder, RecordRequest}
use affinidi_trust_registry.Client.{
  CommonCrudInput, create_record, update_record, delete_record, key_body,
}
use affinidi_trust_registry.Client.Decoded.{
  Decodes, Means, query_of, delete_record-Means, record_messages-Means,
}
use affinidi_trust_registry.Tests.Fixtures.{sdk, profile, decoder, world}
use affinidi_trust_registry.Prelude.{
  String, ◌≡◌, refl, true, false, Option, none, some, Result, ok, err, is_ok, string_eq,
  String-discrete,
}

abbrev typed_request : Option Value → RecordRequest → Result RecordRequest String
typed_request none request = err "missing field `record_type`"
typed_request (some v) request = ok request

abbrev some_request : RecordRequest
some_request = record {
  entity_id = "did:alice";
  authority_id = "did:state";
  action = "issue";
  resource = "passport";
  recognized = true;
  authorized = true;
  context = none;
  record_type = "assertion";
}

abbrev serde : Decoder
serde = record decoder {
  create_request = λ v. typed_request (get_key "record_type" v) some_request;
  update_request = λ v. typed_request (get_key "record_type" v) some_request;
}

untyped :
    (fs : Fields)
    → get_field "record_type" fs ≡ none
    → is_ok (typed_request (get_key "record_type" (obj fs)) some_request) ≡ false
unfolding get_key
untyped fs e = rw e refl

serde_key :
    (input : CommonCrudInput)
    → serde.delete_request (key_body input)
      ≡ ok (record {
        entity_id = input.entity_id;
        authority_id = input.authority_id;
        action = input.action;
        resource = input.resource;
      })
unfolding key_body get_key get_field String-discrete
serde_key input = refl

serde-Decodes : Decodes serde
serde-Decodes = record {
  delete_key = λ input. serde_key input;
  create_typed = λ fs e. untyped fs e;
  update_typed = λ fs e. untyped fs e;
}

abbrev input : CommonCrudInput
input = record {
  trust_registry_did = "did:registry";
  entity_id = "did:alice";
  authority_id = "did:state";
  action = "issue";
  resource = "passport";
}

delete_record-Means_example :
    Means sdk profile serde serde-Decodes "did:registry"
      (λ reg. (delete_in (query_of input) reg).1)
      world
      (delete_record sdk profile input world).1
delete_record-Means_example = delete_record-Means sdk profile serde serde-Decodes input world

record_messages-Means_example :
    Means sdk profile serde serde-Decodes "did:registry"
      (λ reg. reg)
      world
      (create_record sdk profile input true true none world).1
    × Means sdk profile serde serde-Decodes "did:registry"
        (λ reg. reg)
        world
        (update_record sdk profile input true true none world).1
record_messages-Means_example =
    record_messages-Means sdk profile serde serde-Decodes input true true none world
