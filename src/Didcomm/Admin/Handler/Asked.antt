-- ===== src/Didcomm/Admin/Handler/Asked.antt =====
-- What an administration message asks for, described by the texts of the protocol, and that the
-- handler does it.

use affinidi_trust_registry.Domain.RecordType.{RecordType, authorization, recognition, from_str}
use affinidi_trust_registry.Domain.TrustRecord.{TrustRecord}
use affinidi_trust_registry.Domain.Builder
use affinidi_trust_registry.Storage.Repository.{TrustRecordAdminRepository}
use affinidi_trust_registry.Storage.Registry.{Registry, Implements, create_in, update_in, delete_in}
use affinidi_trust_registry.Json.{object}
use affinidi_trust_registry.Didcomm.Message.{Message}
use affinidi_trust_registry.Didcomm.World.{Sdk, Profile, World}
use affinidi_trust_registry.Didcomm.Admin.Messages.{
  Decoder, RecordRequest, KeyRequest, request_record, request_builder, request_query,
}
use affinidi_trust_registry.Didcomm.Admin.Handler.{
  HandlerContext, request_of, handle, create_record_type, update_record_type, delete_record_type,
  read_record_type, list_records_type,
}
use affinidi_trust_registry.Didcomm.Admin.Handler.Effects.{Stands, meaning, or_same, handle-Stands}
use affinidi_trust_registry.Prelude.Text.{lowercase_is}
use affinidi_trust_registry.Prelude.{
  String, ◌≡◌, refl, Option, none, some, unwrap_or, [], List, Result, ok, err, contains, ◌==◌,
  string_eq, if◌then◌else◌, Bool-cases, Option-cases, inl, inr, sym,
}

-- The record that a request names, of the type that its text is read as
abbrev pub record_of : RecordRequest → RecordType → TrustRecord
record_of request record_type = record {
  entity_id = record { text = request.entity_id };
  authority_id = record { text = request.authority_id };
  action = record { text = request.action };
  resource = record { text = request.resource };
  recognized = some request.recognized;
  authorized = some request.authorized;
  context = record { value = unwrap_or request.context (object []) };
  record_type = record_type;
}

abbrev pub asked_record : RecordRequest → Option TrustRecord
asked_record request =
    if lowercase_is request.record_type "assertion"
    then some (record_of request authorization)
    else if lowercase_is request.record_type "recognition"
    then some (record_of request recognition)
    else none

abbrev pub with_asked : Option TrustRecord → (TrustRecord → Registry) → Registry → Registry
with_asked none f reg = reg
with_asked (some r) f reg = f r

abbrev pub with_request :
    Result RecordRequest String → (TrustRecord → Registry) → Registry → Registry
with_request (err e) f reg = reg
with_request (ok request) f reg = with_asked (asked_record request) f reg

abbrev pub without_key : Result KeyRequest String → Registry → Registry
without_key (err e) reg = reg
without_key (ok request) reg =
    (delete_in
      (record {
        entity_id = record { text = request.entity_id };
        authority_id = record { text = request.authority_id };
        action = record { text = request.action };
        resource = record { text = request.resource };
      })
      reg).1

-- The registry after a message of an administrator
abbrev pub asked : Decoder → Message → Registry → Registry
asked decoder message reg =
    if message.type_ == "https://affinidi.com/didcomm/protocols/tr-admin/1.0/create-record"
    then with_request (decoder.create_request message.body) (λ r. (create_in r reg).1) reg
    else if message.type_ == "https://affinidi.com/didcomm/protocols/tr-admin/1.0/update-record"
    then with_request (decoder.update_request message.body) (λ r. (update_in r reg).1) reg
    else if message.type_ == "https://affinidi.com/didcomm/protocols/tr-admin/1.0/delete-record"
    then without_key (decoder.delete_request message.body) reg
    else reg

build-record_of :
    (request : RecordRequest) (t : RecordType)
    → Builder.build (request_builder request t) ≡ ok (record_of request t)
unfolding request_builder Builder.build
build-record_of request t = elim (Option-cases request.context) [
  | inl absent ↦ rw absent refl
  | inr (context, there) ↦ rw there refl
]

request_record-asked :
    (request : RecordRequest) (f : TrustRecord → Registry) (reg : Registry)
    → or_same (request_record request) f reg ≡ with_asked (asked_record request) f reg
unfolding request_record from_str
request_record-asked request f reg =
    elim (Bool-cases (lowercase_is request.record_type "assertion")) [
      | inl e ↦ rw (e, build-record_of request authorization) refl
      | inr e ↦ elim (Bool-cases (lowercase_is request.record_type "recognition")) [
        | inl e' ↦ rw (e, e', build-record_of request recognition) refl
        | inr e' ↦ rw (e, e') refl
      ]
    ]

with_request-asked :
    (r : Result RecordRequest String) (f : TrustRecord → Registry) (reg : Registry)
    → or_same r (λ request. or_same (request_record request) f reg) reg ≡ with_request r f reg
with_request-asked (ok request) f reg = request_record-asked request f reg
with_request-asked (err e) f reg = refl

without_key_lem :
    (r : Result KeyRequest String) (reg : Registry)
    → or_same r (λ request. (delete_in (request_query request) reg).1) reg ≡ without_key r reg
without_key_lem (ok request) reg = refl
without_key_lem (err e) reg = refl

pub meaning-asked :
    (decoder : Decoder) (message : Message) (reg : Registry)
    → meaning decoder (request_of message.type_) message reg ≡ asked decoder message reg
unfolding request_of
meaning-asked decoder message reg = elim (Bool-cases (message.type_ == create_record_type)) [
  | inl e ↦ rw e (with_request-asked (decoder.create_request message.body) _ reg)
  | inr e ↦ elim (Bool-cases (message.type_ == update_record_type)) [
    | inl e' ↦ rw (e, e') (with_request-asked (decoder.update_request message.body) _ reg)
    | inr e' ↦ elim (Bool-cases (message.type_ == delete_record_type)) [
      | inl e'' ↦ rw (e, e', e'') (without_key_lem (decoder.delete_request message.body) reg)
      | inr e'' ↦ elim (Bool-cases (message.type_ == read_record_type)) [
        | inl e3 ↦ rw (e, e', e'', e3) refl
        | inr e3 ↦ elim (Bool-cases (message.type_ == list_records_type)) [
          | inl e4 ↦ rw (e, e', e'', e3, e4) refl
          | inr e4 ↦ rw (e, e', e'', e3, e4) refl
        ]
      ]
    ]
  ]
]

module _ {S : Type 0} {IsValid : S → Type 0} {view : S → Registry} (sdk : Sdk) (profile : Profile)
    (decoder : Decoder) (repo : TrustRecordAdminRepository S) (admin_dids : List String)
    (impl : Implements IsValid view repo) where
  -- After any administration message, valid or not, whatever the SDK answers, the store is valid and
  -- stands for this registry: for a sender that is no administrator the one from before. For an
  -- administrator, a message of the type `create-record` or `update-record` whose body is decoded
  -- and names the record type `assertion` or `recognition`, in letters of any case, creates or updates
  -- in the registry the record with the identifiers, the two flags and the context of the body, or
  -- the empty context if it has none; one of the type `delete-record` whose body is decoded deletes
  -- under the identifiers of the body; and every other message leaves the registry as it is.
  pub handle-Asked :
      (ctx : HandlerContext) (message : Message) (w : World S)
      → IsValid w.store
      → Stands {IsValid = IsValid} {view = view} sdk profile decoder repo admin_dids impl
          (if contains admin_dids ctx.sender_did
            then asked decoder message (view w.store)
            else view w.store)
          (handle sdk profile decoder repo admin_dids ctx message w).1.store
  handle-Asked ctx message w v = rw (sym (meaning-asked decoder message (view w.store))) (
      handle-Stands {IsValid = IsValid} {view = view} sdk profile decoder repo admin_dids impl ctx
        message w v)
