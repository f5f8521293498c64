-- ===== src/Didcomm/Admin/Handler/Auditing.antt =====
-- What is audited, and what is sent, when an administration message is handled.
use mathlib.Core.List.{append-nil}
use affinidi_trust_registry.Storage.Repository.{TrustRecordAdminRepository}
use affinidi_trust_registry.Json.{Value}
use affinidi_trust_registry.Audit.Model
use affinidi_trust_registry.Audit.Model.{
  AuditLog, AuditOperation, AuditResource, AuditStatus, success, failure,
}
use affinidi_trust_registry.Didcomm.Message.{Message}
use affinidi_trust_registry.Didcomm.World.{
  Sdk, Profile, World, audit, audits, messages, record_call,
}
use affinidi_trust_registry.Didcomm.ProblemReport
use affinidi_trust_registry.Didcomm.ProblemReport.{to_body}
use affinidi_trust_registry.Didcomm.Transport.{
  build_response, build_problem_report, problem_report_type,
}
use affinidi_trust_registry.Didcomm.Transport.Traces.{
  Sends, audits-append, messages-append, send_response-Sends, send_problem_report-Sends,
}
use affinidi_trust_registry.Didcomm.Admin.Messages.{
  Decoder, handle_create_record, handle_update_record, handle_delete_record, handle_read_record,
  handle_list_records,
}
use affinidi_trust_registry.Didcomm.Admin.Handler.{
  HandlerContext, create_record_type, update_record_type, delete_record_type, read_record_type,
  list_records_type, Request, create, update, delete, read, list, unknown, request_of, operation_of,
  extract_audit_resource, get_operation_from_message_type, entry, conclude, handle_request_of,
  handle,
}
use affinidi_trust_registry.Prelude.{
  String, ◌<>◌, ◌≡◌, ◌≢◌, refl, ◌∙◌, true, false, List, [], ◌∷◌, ◌++◌, Result, ok, err, some, arith,
  contains, string_eq,
}

-- One entry and one message follow what was audited and sent before; the store stays.
pub record Concludes {S : Type 0} (log : AuditLog) (message : Message) (to : String)
    (before after : World S) : Type 0 where
  pub store : after.store ≡ before.store
  pub audited : audits after.calls ≡ audits before.calls ++ log ∷ []
  pub sent : messages after.calls ≡ messages before.calls ++ (message, to) ∷ []

Sends-Concludes :
    {S : Type 0} (message : Message) (log : AuditLog) (to : String) (before after : World S)
    → Sends message to (record_call (audit log) before) after
    → Concludes log message to before after
Sends-Concludes message log to before after s = record {
  store = s.store;
  audited = s.audited ∙ audits-append before.calls (audit log ∷ []);
  sent = s.sent ∙ simp (messages-append, append-nil);
}

abbrev pub response_type : Request → String
response_type create = create_record_type <> "/response"
response_type update = update_record_type <> "/response"
response_type delete = delete_record_type <> "/response"
response_type read = read_record_type <> "/response"
response_type list = list_records_type <> "/response"
response_type unknown = problem_report_type

abbrev pub rejection : String → String
rejection sender = "Unauthorized: DID " <> sender <> " is not in admin list"

abbrev pub status_of : {A : Type 0} → Result A String → AuditStatus
status_of (ok a) = success
status_of (err e) = failure

abbrev pub answer_type : {A : Type 0} → Request → Result A String → String
answer_type request (ok a) = response_type request
answer_type request (err e) = problem_report_type

abbrev pub body_of : Result Value String → Value
body_of (ok body) = body
body_of (err e) = to_body (ProblemReport.internal_error e)

module _ {S : Type 0} (sdk : Sdk) (profile : Profile) (decoder : Decoder)
    (repo : TrustRecordAdminRepository S) (admin_dids : List String) where
  abbrev pub unauthorized_log : HandlerContext → Message → World S → AuditLog
  unauthorized_log ctx message w =
      Model.build_unauthorized (sdk.now w.calls) (rejection ctx.sender_did) (
        entry sdk profile decoder repo admin_dids ctx
          (get_operation_from_message_type message.type_) Model.empty w)

  abbrev pub unauthorized_report : HandlerContext → Message → World S → Message
  unauthorized_report ctx message w =
      build_problem_report sdk (w.calls ++ audit (unauthorized_log ctx message w) ∷ []) profile.did
        ctx.sender_did (ProblemReport.unauthorized (rejection ctx.sender_did)) ctx.thid ctx.pthid

  -- A message whose sender is not on the list of administrators changes no record: it is audited
  -- once, as unauthorized, with the operation that its type names, its sender and its thread, and
  -- the sender is sent one problem report with the code for unauthorized, whatever the SDK answers.
  pub handle_rejected :
      (ctx : HandlerContext) (message : Message) (w : World S)
      → contains admin_dids ctx.sender_did ≡ false
      → Concludes
          (unauthorized_log ctx message w)
          (unauthorized_report ctx message w)
          ctx.sender_did
          w
          (handle sdk profile decoder repo admin_dids ctx message w).1
  unfolding handle
  handle_rejected ctx message w h =
      rw (h, handle)
        (Sends-Concludes _ _ ctx.sender_did w _ (
          send_problem_report-Sends sdk profile
            (ProblemReport.unauthorized (rejection ctx.sender_did)) ctx.sender_did ctx.thid
            ctx.pthid _))

  -- The handler of a request, as a function of the request's kind
  abbrev pub run : Request → Message → World S → Result Value String × World S
  run create message w = handle_create_record decoder repo message w
  run update message w = handle_update_record decoder repo message w
  run delete message w = handle_delete_record decoder repo message w
  run read message w = handle_read_record decoder repo message w
  run list message w = handle_list_records decoder repo w
  run unknown message w = (err "", w)

  pub handle_request_of-run :
      (request : Request) (ctx : HandlerContext) (message : Message) (w : World S)
      → request ≢ unknown
      → handle_request_of sdk profile decoder repo admin_dids request ctx message w
        ≡ conclude sdk profile decoder repo admin_dids ctx
            (response_type request)
            (operation_of request)
            (extract_audit_resource message)
            (run request message w)
  unfolding handle_request_of
  handle_request_of-run unknown ctx message w h = absurd (h refl)
  handle_request_of-run create ctx message w h = refl
  handle_request_of-run _ ctx message w h = refl

  -- What an audit entry says of a request that was let through
  pub record Describes (ctx : HandlerContext) (request : Request) (message : Message)
      (result : Result Value String) (log : AuditLog) : Type 0 where
    pub operation : log.operation ≡ operation_of request
    pub actor : log.actor ≡ ctx.sender_did
    pub resource : log.resource ≡ extract_audit_resource message
    pub thread_id : log.thread_id ≡ ctx.thid
    pub status : log.status ≡ status_of result

  -- The entry and the answer that follow the handling of a request
  pub record Answered (ctx : HandlerContext) (request : Request) (message : Message)
      (result : Result Value String) (before after : World S) : Type 0 where
    pub log : AuditLog
    pub answer : Message
    pub concluded : Concludes log answer ctx.sender_did before after
    pub described : Describes ctx request message result log
    pub answer_typed : answer.type_ ≡ answer_type request result
    pub answer_body : answer.body ≡ body_of result
    pub threaded : (t : String) → ctx.thid ≡ some t → answer.thid ≡ some t

  conclude-Answered :
      (request : Request) (ctx : HandlerContext) (message : Message) (result : Result Value String)
      (w : World S)
      → Answered ctx request message result w (
          conclude sdk profile decoder repo admin_dids ctx
            (response_type request)
            (operation_of request)
            (extract_audit_resource message)
            (result, w))
  unfolding conclude build_response build_problem_report Model.with_thread_id Model.with_resource
      Model.with_actor Model.with_operation
  conclude-Answered request ctx message (ok body) w = record {
    log = _;
    answer = _;
    concluded = Sends-Concludes _ _ ctx.sender_did w _ (
        send_response-Sends sdk profile (response_type request) body ctx.sender_did ctx.thid
          ctx.pthid _);
    described = record {
      operation = refl;
      actor = refl;
      resource = refl;
      thread_id = refl;
      status = refl;
    };
    answer_typed = ground arith;
    answer_body = ground arith;
    threaded = λ t h. ground arith;
  }
  conclude-Answered request ctx message (err e) w = record {
    log = _;
    answer = _;
    concluded = Sends-Concludes _ _ ctx.sender_did w _ (
        send_problem_report-Sends sdk profile (ProblemReport.internal_error e) ctx.sender_did
          ctx.thid ctx.pthid _);
    described = record {
      operation = refl;
      actor = refl;
      resource = refl;
      thread_id = refl;
      status = refl;
    };
    answer_typed = ground arith;
    answer_body = ground arith;
    threaded = λ t h. ground arith;
  }

  -- A request of a known kind whose sender is an administrator is handled once, and then audited
  -- once and answered once, whatever the SDK answers: the entry names the operation, the sender,
  -- the identifiers in the body, the thread, and success exactly if the handler returned a body;
  -- the answer is of the request's response type in that case and a problem report else, and it
  -- is in the thread of the request.
  pub handle-Answered :
      (ctx : HandlerContext) (message : Message) (w : World S)
      → contains admin_dids ctx.sender_did ≡ true
      → request_of message.type_ ≢ unknown
      → let request = request_of message.type_ in
        let done = run request message w in
        Answered ctx request message done.0 done.1
          (handle sdk profile decoder repo admin_dids ctx message w).1
  unfolding handle
  handle-Answered ctx message w h k =
      let request = request_of message.type_ in
      let done = run request message w in
      rw (h, handle, handle_request_of-run request ctx message w k)
        (conclude-Answered request ctx message done.0 done.1)
