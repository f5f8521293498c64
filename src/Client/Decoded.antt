-- ===== src/Client/Decoded.antt =====
-- What the service makes of the client's messages.
use affinidi_trust_registry.Storage.Registry.{Registry, delete_in}
use affinidi_trust_registry.Storage.Repository.{TrustRecordQuery}
use affinidi_trust_registry.Json.{Value, Fields, obj, get_field, insert_field}
use affinidi_trust_registry.Didcomm.Message.{Message}
use affinidi_trust_registry.Didcomm.World.{Sdk, Profile, World}
use affinidi_trust_registry.Didcomm.Transport.Traces.{Sends, pack_and_forward-Sends}
use affinidi_trust_registry.Didcomm.Handlers.{context_of}
use affinidi_trust_registry.Didcomm.Admin.Messages.{Decoder}
use affinidi_trust_registry.Didcomm.Admin.Handler.{create, update, delete, request_of}
use affinidi_trust_registry.Didcomm.Admin.Handler.Effects.{meaning, or_same}
use affinidi_trust_registry.Client.{
  CommonCrudInput, create_record_type, update_record_type, delete_record_type, record_body,
  key_body, admin_message, send_admin_message, create_record, update_record, delete_record,
}
use affinidi_trust_registry.Prelude.{
  String, ◌≡◌, refl, sym, subst, Bool, false, Option, none, some, Result, ok, err, is_ok, string_eq,
  String-discrete,
}

-- `from_value` at the request types as serde derives it: a key request is read from its four
-- texts, and a record request that is read from an object needs its field `record_type`.
pub record Decodes (decoder : Decoder) : Type 0 where
  pub delete_key :
      (input : CommonCrudInput)
      → decoder.delete_request (key_body input)
        ≡ ok (record {
          entity_id = input.entity_id;
          authority_id = input.authority_id;
          action = input.action;
          resource = input.resource;
        })
  pub create_typed :
      (fs : Fields)
      → get_field "record_type" fs ≡ none
      → is_ok (decoder.create_request (obj fs)) ≡ false
  pub update_typed :
      (fs : Fields)
      → get_field "record_type" fs ≡ none
      → is_ok (decoder.update_request (obj fs)) ≡ false

record_body-untyped :
    (input : CommonCrudInput) (recognized authorized : Bool) (context : Option Value)
    → (fs : Fields) × (record_body input recognized authorized context ≡ obj fs)
      × (get_field "record_type" fs ≡ none)
unfolding get_field record_body insert_field String-discrete
record_body-untyped input recognized authorized none = (_, refl, refl)
record_body-untyped input recognized authorized (some ctx) = (_, refl, refl)

abbrev pub query_of : CommonCrudInput → TrustRecordQuery
query_of input = record {
  entity_id = record { text = input.entity_id };
  authority_id = record { text = input.authority_id };
  action = record { text = input.action };
  resource = record { text = input.resource };
}

delete-request_of : request_of delete_record_type ≡ delete
unfolding request_of String-discrete
delete-request_of = refl

create-request_of : request_of create_record_type ≡ create
unfolding request_of String-discrete
create-request_of = refl

update-request_of : request_of update_record_type ≡ update
unfolding request_of String-discrete
update-request_of = refl

untyped-or_same :
    {A : Type 0} (r : Result A String) (f : A → Registry) (reg : Registry)
    → is_ok r ≡ false
    → or_same r f reg ≡ reg
untyped-or_same (ok a) f reg h = absurd (let x : ⊥ = cc in x)
untyped-or_same (err e) f reg h = refl

module _ {S : Type 0} (sdk : Sdk) (profile : Profile) (decoder : Decoder)
    (decodes : Decodes decoder) where
  -- One message was handed to the SDK for the registry, it is from the client, and a service that
  -- accepts the client as an administrator makes this registry of it.
  pub record Means (to : String) (f : Registry → Registry) (before after : World S) : Type 0 where
    pub message : Message
    pub sends : Sends message to before after
    pub sender : (context_of message).sender_did ≡ profile.did
    pub effect : (reg : Registry) → meaning decoder (request_of message.type_) message reg ≡ f reg

  send_admin_message-Sends :
      (to message_type : String) (body : Value) (w : World S)
      → Sends
          (admin_message sdk profile w to message_type body)
          to
          w
          (send_admin_message sdk profile to message_type body w).1
  unfolding send_admin_message
  send_admin_message-Sends to message_type body w = pack_and_forward-Sends sdk profile _ to w

  -- A delete message of the client makes an accepting service delete the record of that key, and no
  -- other, whether or not the SDK says that it was sent.
  pub delete_record-Means :
      (input : CommonCrudInput) (w : World S)
      → Means input.trust_registry_did
          (λ reg. (delete_in (query_of input) reg).1)
          w
          (delete_record sdk profile input w).1
  unfolding delete_record context_of
  delete_record-Means input w = record {
    message =
        admin_message sdk profile w input.trust_registry_did delete_record_type (key_body input);
    sends = send_admin_message-Sends input.trust_registry_did delete_record_type (key_body input) w;
    sender = refl;
    effect = λ reg. rw (delete-request_of, decodes.delete_key input) refl;
  }

  -- Neither a create nor an update message of the client, with whatever flags and context, changes the
  -- registry of a service that refuses, as its request types have it, an object without the field
  -- `record_type`: the body is such an object.
  pub record_messages-Means :
      (input : CommonCrudInput) (recognized authorized : Bool) (context : Option Value)
      (w : World S)
      → Means input.trust_registry_did
          (λ reg. reg)
          w
          (create_record sdk profile input recognized authorized context w).1
        × Means input.trust_registry_did
            (λ reg. reg)
            w
            (update_record sdk profile input recognized authorized context w).1
  unfolding create_record update_record context_of
  record_messages-Means input recognized authorized context w =
      let body = record_body input recognized authorized context in
      let (fs, is_object, untyped) = record_body-untyped input recognized authorized context in
      (
        record {
          message = admin_message sdk profile w input.trust_registry_did create_record_type body;
          sends = send_admin_message-Sends input.trust_registry_did create_record_type body w;
          sender = refl;
          effect = λ reg. rw create-request_of (
              untyped-or_same (decoder.create_request body) _ reg (
                subst (λ v. is_ok (decoder.create_request v) ≡ false) (sym is_object)
                  (decodes.create_typed fs untyped)));
        },
        record {
          message = admin_message sdk profile w input.trust_registry_did update_record_type body;
          sends = send_admin_message-Sends input.trust_registry_did update_record_type body w;
          sender = refl;
          effect = λ reg. rw update-request_of (
              untyped-or_same (decoder.update_request body) _ reg (
                subst (λ v. is_ok (decoder.update_request v) ≡ false) (sym is_object)
                  (decodes.update_typed fs untyped)));
        },
      )
