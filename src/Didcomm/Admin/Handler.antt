-- ===== src/Didcomm/Admin/Handler.antt =====
-- trust-registry/src/didcomm/handlers/admin/mod.rs: who may administer, what is audited, what is
-- answered. The lines that go to the log of the process are left out.
pub mod Effects
pub mod Auditing
pub mod Asked
pub mod Protocol
pub mod Audited
use affinidi_trust_registry.Domain.Ids.{EntityId, AuthorityId, Action, Resource}
use affinidi_trust_registry.Storage.Repository.{TrustRecordAdminRepository}
use affinidi_trust_registry.Json.{Value, Fields, obj, get_field, as_str}
use affinidi_trust_registry.Audit.Model
use affinidi_trust_registry.Audit.Model.{AuditOperation, AuditResource, AuditLog}
use affinidi_trust_registry.Didcomm.Message.{Message}
use affinidi_trust_registry.Didcomm.World.{Sdk, Profile, World, audit, record_call}
use affinidi_trust_registry.Didcomm.ProblemReport
use affinidi_trust_registry.Didcomm.Transport.{send_response, send_problem_report}
use affinidi_trust_registry.Didcomm.Admin.Messages.{
  Decoder, handle_create_record, handle_update_record, handle_delete_record, handle_read_record,
  handle_list_records,
}
use affinidi_trust_registry.Prelude.Effect.{Effect}
use affinidi_trust_registry.Prelude.{
  String, ◌<>◌, Bool, ◌||◌, Option, none, some, and_then, is_some, List, [], ◌∷◌, Result, ok, err,
  contains, ◌==◌, string_eq, if◌then◌else◌,
}

abbrev pub create_record_type : String
create_record_type = "https://affinidi.com/didcomm/protocols/tr-admin/1.0/create-record"

abbrev pub update_record_type : String
update_record_type = "https://affinidi.com/didcomm/protocols/tr-admin/1.0/update-record"

abbrev pub delete_record_type : String
delete_record_type = "https://affinidi.com/didcomm/protocols/tr-admin/1.0/delete-record"

abbrev pub read_record_type : String
read_record_type = "https://affinidi.com/didcomm/protocols/tr-admin/1.0/read-record"

abbrev pub list_records_type : String
list_records_type = "https://affinidi.com/didcomm/protocols/tr-admin/1.0/list-records"

-- `get_supported_inbound_message_types`
abbrev pub supported : List String
supported =
    create_record_type ∷ update_record_type ∷ delete_record_type ∷ read_record_type
    ∷ list_records_type ∷ []

-- The arm of a `match message_type`; the last one is `_`.
pub data Request : Type 0 where
  create update delete read list unknown : Request

unfoldable pub request_of : String → Request
request_of message_type =
    if message_type == create_record_type
    then create
    else if message_type == update_record_type
    then update
    else if message_type == delete_record_type
    then delete
    else if message_type == read_record_type
    then read
    else if message_type == list_records_type
    then list
    else unknown

abbrev pub operation_of : Request → AuditOperation
operation_of create = Model.create
operation_of update = Model.update
operation_of delete = Model.delete
operation_of read = Model.read
operation_of list = Model.list
operation_of unknown = Model.create

unfoldable pub get_operation_from_message_type : String → AuditOperation
unfolding request_of
get_operation_from_message_type message_type = operation_of (request_of message_type)

abbrev pub text_at : {A : Type 0} → (String → A) → String → Fields → Option A
text_at new key body = and_then (and_then (get_field key body) as_str) (λ s. some (new s))

-- The identifiers that the body names as texts; where it names none, and where it is no object,
-- the result is the empty resource.
abbrev resource_of : Fields → AuditResource
resource_of body =
    let entity_id = text_at {A = EntityId} (λ s. record { text = s }) "entity_id" body in
    let authority_id = text_at {A = AuthorityId} (λ s. record { text = s }) "authority_id" body in
    let action = text_at {A = Action} (λ s. record { text = s }) "action" body in
    let resource = text_at {A = Resource} (λ s. record { text = s }) "resource" body in
    if is_some entity_id || is_some authority_id || is_some action || is_some resource
    then record {
      entity_id = entity_id;
      authority_id = authority_id;
      action = action;
      resource = resource;
    }
    else Model.empty

abbrev pub resource_in : Value → AuditResource
resource_in (obj body) = resource_of body
resource_in _ = Model.empty

unfoldable pub extract_audit_resource : Message → AuditResource
unfolding get_field
extract_audit_resource message = resource_in message.body

-- `HandlerContext` of handlers/mod.rs; the SDK's objects in it are the parameters below.
pub record HandlerContext : Type 0 where
  pub sender_did : String
  pub thid : Option String
  pub pthid : Option String

unfoldable pub validate_admin_did : List String → String → Result (Unit {0}) String
validate_admin_did admin_dids sender_did =
    if contains admin_dids sender_did
    then ok tt
    else err ("Unauthorized: DID " <> sender_did <> " is not in admin list")

module _ {S : Type 0} (sdk : Sdk) (profile : Profile) (decoder : Decoder)
    (repo : TrustRecordAdminRepository S) (admin_dids : List String) where
  -- The part of an audit entry that the three kinds of entries share
  abbrev pub entry : HandlerContext → AuditOperation → AuditResource → World S → AuditLog
  entry ctx operation resource w = Model.with_thread_id ctx.thid (
      Model.with_resource resource (
        Model.with_actor ctx.sender_did
          (Model.with_operation operation (Model.new (sdk.now w.calls)))))

  unfoldable pub handle_success :
      HandlerContext
      → (response_message_type : String) → (response_body : Value) → AuditOperation
      → AuditResource
      → World S
      → World S
  unfolding send_response Model.build_success
  handle_success ctx response_message_type response_body operation resource w =
      let log = Model.build_success (sdk.now w.calls) (entry ctx operation resource w) in
      (send_response sdk profile response_message_type response_body ctx.sender_did ctx.thid
        ctx.pthid (record_call (audit log) w)).1

  unfoldable pub handle_failure :
      HandlerContext → (error_msg : String) → AuditOperation → AuditResource → World S → World S
  unfolding send_problem_report ProblemReport.internal_error Model.build_failure
  handle_failure ctx error_msg operation resource w =
      let log = Model.build_failure (sdk.now w.calls) error_msg (entry ctx operation resource w) in
      (send_problem_report sdk profile (ProblemReport.internal_error error_msg) ctx.sender_did
        ctx.thid ctx.pthid (record_call (audit log) w)).1

  unfoldable pub handle_unauthorized :
      HandlerContext → (auth_error : String) → (message_type : String) → World S → World S
  unfolding send_problem_report ProblemReport.unauthorized Model.build_unauthorized
      get_operation_from_message_type
  handle_unauthorized ctx auth_error message_type w =
      let operation = get_operation_from_message_type message_type in
      let log =
        Model.build_unauthorized (sdk.now w.calls) auth_error (entry ctx operation Model.empty w) in
      (send_problem_report sdk profile (ProblemReport.unauthorized auth_error) ctx.sender_did
        ctx.thid ctx.pthid (record_call (audit log) w)).1

  -- What the last `match` of `handle_request` does with a handler's result
  unfoldable pub conclude :
      HandlerContext
      → (response_message_type : String) → AuditOperation
      → AuditResource
      → Result Value String × World S
      → World S
  unfolding handle_success handle_failure
  conclude ctx response_message_type operation resource (ok response_body, w) =
      handle_success ctx response_message_type response_body operation resource w
  conclude ctx response_message_type operation resource (err error_msg, w) =
      handle_failure ctx error_msg operation resource w

  unfoldable pub handle_request_of : Request → HandlerContext → Message → World S → World S
  unfolding conclude send_problem_report ProblemReport.bad_request extract_audit_resource
      handle_create_record handle_update_record handle_delete_record handle_read_record
      handle_list_records
  handle_request_of create ctx message w =
      conclude ctx (create_record_type <> "/response") Model.create (extract_audit_resource message)
        (handle_create_record decoder repo message w)
  handle_request_of update ctx message w =
      conclude ctx (update_record_type <> "/response") Model.update (extract_audit_resource message)
        (handle_update_record decoder repo message w)
  handle_request_of delete ctx message w =
      conclude ctx (delete_record_type <> "/response") Model.delete (extract_audit_resource message)
        (handle_delete_record decoder repo message w)
  handle_request_of read ctx message w =
      conclude ctx (read_record_type <> "/response") Model.read (extract_audit_resource message)
        (handle_read_record decoder repo message w)
  handle_request_of list ctx message w =
      conclude ctx (list_records_type <> "/response") Model.list (extract_audit_resource message)
        (handle_list_records decoder repo w)
  handle_request_of unknown ctx message w =
      (send_problem_report sdk profile
        (ProblemReport.bad_request ("Unknown message type: " <> message.type_)) ctx.sender_did
        ctx.thid ctx.pthid w).1

  -- `handle_request`, at the type of the message
  unfoldable pub handle_request : HandlerContext → Message → World S → World S
  unfolding handle_request_of request_of
  handle_request ctx message w = handle_request_of (request_of message.type_) ctx message w

  -- `handle` of the protocol handler: it always returns `Ok(())`.
  unfoldable pub handle : HandlerContext → Message → Effect (World S) String (Unit {0})
  unfolding handle_request handle_unauthorized validate_admin_did
  handle ctx message w = elim (validate_admin_did admin_dids ctx.sender_did) [
    | err auth_error ↦ (ok tt, handle_unauthorized ctx auth_error message.type_ w)
    | ok _ ↦ (ok tt, handle_request ctx message w)
  ]
