-- ===== src/Client.antt =====
-- test-client/src (from the repository's root): a client that administers a registry by messages.
-- It uses the messaging SDK as the service does (Didcomm/World); what it prints is not modelled.
pub mod Demo
pub mod UserConfig
pub mod Decoded
use affinidi_trust_registry.Json.{Value, Fields, str, bool, obj, no_fields, fields, insert_field}
use affinidi_trust_registry.Didcomm.Message.{Message, build}
use affinidi_trust_registry.Didcomm.World.{
  Sdk, Profile, World, pack_encrypted, forward_and_send_message,
}
use affinidi_trust_registry.Prelude.Effect.{Effect, ◌>>=◌}
use affinidi_trust_registry.Prelude.{String, Bool, Option, none, some, [], ◌∷◌}

abbrev pub create_record_type : String
create_record_type = "https://affinidi.com/didcomm/protocols/tr-admin/1.0/create-record"

abbrev pub update_record_type : String
update_record_type = "https://affinidi.com/didcomm/protocols/tr-admin/1.0/update-record"

abbrev pub delete_record_type : String
delete_record_type = "https://affinidi.com/didcomm/protocols/tr-admin/1.0/delete-record"

abbrev pub read_record_type : String
read_record_type = "https://affinidi.com/didcomm/protocols/tr-admin/1.0/read-record"

abbrev pub list_records_type : String
list_records_type = "https://affinidi.com/didcomm/protocols/tr-admin/1.0/list-records"

-- What of `CommonCrudInput` the messages depend on
pub record CommonCrudInput : Type 0 where
  pub trust_registry_did : String
  pub entity_id : String
  pub authority_id : String
  pub action : String
  pub resource : String

abbrev with_context : Option Value → Fields → Fields
with_context none body = body
with_context (some ctx) body = insert_field "context" ctx body

-- The body of a create or update message: it has no `record_type`.
unfoldable pub record_body :
    CommonCrudInput → (recognized authorized : Bool) → (context : Option Value) → Value
record_body input recognized authorized context = obj (
    with_context context (
      fields (
        ("entity_id", str input.entity_id)
        ∷ ("authority_id", str input.authority_id)
        ∷ ("action", str input.action)
        ∷ ("resource", str input.resource)
        ∷ ("recognized", bool recognized)
        ∷ ("authorized", bool authorized)
        ∷ [])))

-- The body of a delete or read message
unfoldable pub key_body : CommonCrudInput → Value
key_body input = obj (
    fields (
      ("entity_id", str input.entity_id)
      ∷ ("authority_id", str input.authority_id)
      ∷ ("action", str input.action)
      ∷ ("resource", str input.resource)
      ∷ []))

module _ {S : Type 0} (sdk : Sdk) (profile : Profile) where
  -- The message that is sent, with its drawn identifier
  abbrev pub admin_message : World S → (trust_registry_did message_type : String) → Value → Message
  admin_message w trust_registry_did message_type body =
      build (sdk.new_uuid w.calls 0) message_type body profile.did trust_registry_did

  abbrev pack_and_send :
      Message → (trust_registry_did : String) → Effect (World S) String (Unit {0})
  pack_and_send message trust_registry_did = do
    packed ← pack_encrypted sdk message trust_registry_did profile.did profile.did
    forward_and_send_message sdk packed message.id profile.mediator trust_registry_did

  unfoldable pub send_admin_message :
      (trust_registry_did message_type : String) → Value → Effect (World S) String (Unit {0})
  send_admin_message trust_registry_did message_type body w =
      pack_and_send (admin_message w trust_registry_did message_type body) trust_registry_did w

  unfoldable pub create_record :
      CommonCrudInput
      → (recognized authorized : Bool) → (context : Option Value)
      → Effect (World S) String (Unit {0})
  create_record input recognized authorized context =
      send_admin_message input.trust_registry_did create_record_type
        (record_body input recognized authorized context)

  unfoldable pub update_record :
      CommonCrudInput
      → (recognized authorized : Bool) → (context : Option Value)
      → Effect (World S) String (Unit {0})
  update_record input recognized authorized context =
      send_admin_message input.trust_registry_did update_record_type
        (record_body input recognized authorized context)

  unfoldable pub delete_record : CommonCrudInput → Effect (World S) String (Unit {0})
  delete_record input =
      send_admin_message input.trust_registry_did delete_record_type (key_body input)

  unfoldable pub read_record : CommonCrudInput → Effect (World S) String (Unit {0})
  read_record input = send_admin_message input.trust_registry_did read_record_type (key_body input)

  unfoldable pub list_records : (trust_registry_did : String) → Effect (World S) String (Unit {0})
  list_records trust_registry_did =
      send_admin_message trust_registry_did list_records_type (obj no_fields)
