-- ===== src/Didcomm/Admin/Handler/Audited.antt =====
-- The audit entry and the answer of an administration message, described by the texts of the
-- protocol and of the problem reports.
use affinidi_trust_registry.Storage.Repository.{TrustRecordAdminRepository}
use affinidi_trust_registry.Json.{Value}
use affinidi_trust_registry.Audit.Model
use affinidi_trust_registry.Audit.Model.{
  AuditLog, AuditOperation, AuditResource, AuditStatus, success, failure, unauthorized,
}
use affinidi_trust_registry.Didcomm.Message.{Message}
use affinidi_trust_registry.Didcomm.World.{Sdk, Profile, World}
use affinidi_trust_registry.Didcomm.ProblemReport
use affinidi_trust_registry.Didcomm.ProblemReport.{to_body}
use affinidi_trust_registry.Didcomm.Admin.Messages.{Decoder}
use affinidi_trust_registry.Didcomm.Admin.Handler.{HandlerContext, Request, unknown}
use affinidi_trust_registry.Didcomm.Admin.Handler.Protocol.{
  asked_type, audited_as, named_resource, Reports,
}
use affinidi_trust_registry.Didcomm.Admin.Handler.Auditing.{Concludes}
use affinidi_trust_registry.Prelude.{String, ◌<>◌, ◌≡◌, ◌≢◌, some, List, Result, ok, err, string_eq}

module _ {S : Type 0} (sdk : Sdk) (profile : Profile) (decoder : Decoder)
    (repo : TrustRecordAdminRepository S) (admin_dids : List String) where
  -- What was audited and sent for a message that was refused
  pub record Refused (ctx : HandlerContext) (message : Message) (before after : World S)
      : Type 0 where
    pub log : AuditLog
    pub report : Message
    pub concluded : Concludes log report ctx.sender_did before after
    pub status : log.status ≡ unauthorized
    pub actor : log.actor ≡ ctx.sender_did
    pub thread_id : log.thread_id ≡ ctx.thid
    pub resource : log.resource ≡ Model.empty
    pub operation :
        (request : Request)
        → request ≢ unknown
        → message.type_ ≡ asked_type request
        → log.operation ≡ audited_as request
    pub reports :
        Reports "e.p.msg.unauthorized"
          ("Unauthorized: DID " <> ctx.sender_did <> " is not in admin list")
          report
    pub threaded : (t : String) → ctx.thid ≡ some t → report.thid ≡ some t

  abbrev Answers : Request → Result Value String → Message → Type 0
  Answers request (ok body) answer =
      (answer.type_ ≡ asked_type request <> "/response") × (answer.body ≡ body)
  Answers request (err e) answer = Reports "e.p.msg.internal-error" e answer

  abbrev audited_status : Result Value String → AuditStatus
  audited_status (ok body) = success
  audited_status (err e) = failure

  -- What was audited and sent for a request that was handled with the result
  pub record Settled (ctx : HandlerContext) (request : Request) (message : Message)
      (result : Result Value String) (before after : World S) : Type 0 where
    pub log : AuditLog
    pub answer : Message
    pub concluded : Concludes log answer ctx.sender_did before after
    pub operation : log.operation ≡ audited_as request
    pub actor : log.actor ≡ ctx.sender_did
    pub resource : log.resource ≡ named_resource message.body
    pub thread_id : log.thread_id ≡ ctx.thid
    pub status : log.status ≡ audited_status result
    pub answers : Answers request result answer
    pub threaded : (t : String) → ctx.thid ≡ some t → answer.thid ≡ some t
