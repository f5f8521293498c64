-- ===== src/Didcomm/Admin/Handler/Protocol.antt =====
-- The texts of the protocol for administration and of problem reports, apart from the code that uses
-- them, and that this code agrees with them.
use affinidi_trust_registry.Domain.Ids.{EntityId, AuthorityId, Action, Resource}
use affinidi_trust_registry.Json.{Value, null, bool, num, str, arr, obj, get_key, get_field, as_str}
use affinidi_trust_registry.Audit.Model
use affinidi_trust_registry.Audit.Model.{
  AuditLog, AuditOperation, AuditResource, AuditStatus, success, failure, unauthorized,
}
use affinidi_trust_registry.Didcomm.Message.{Message}
use affinidi_trust_registry.Didcomm.World.{Call, Sdk}
use affinidi_trust_registry.Didcomm.ProblemReport
use affinidi_trust_registry.Didcomm.ProblemReport.{to_body}
use affinidi_trust_registry.Didcomm.Transport.{build_response, build_problem_report}
use affinidi_trust_registry.Didcomm.Admin.Handler.{
  Request, create, update, delete, read, list, unknown, request_of, operation_of,
  extract_audit_resource, text_at, resource_in,
}
use affinidi_trust_registry.Prelude.{
  String, ◌≡◌, ◌≢◌, refl, ap, ◌∙◌, ◌||◌, Option, none, some, and_then, is_some, unwrap_or, List,
  string_eq, String-discrete, if◌then◌else◌,
}

-- The protocol's name of a request, and the operation that its audit entry names
abbrev pub asked_type : Request → String
asked_type create = "https://affinidi.com/didcomm/protocols/tr-admin/1.0/create-record"
asked_type update = "https://affinidi.com/didcomm/protocols/tr-admin/1.0/update-record"
asked_type delete = "https://affinidi.com/didcomm/protocols/tr-admin/1.0/delete-record"
asked_type read = "https://affinidi.com/didcomm/protocols/tr-admin/1.0/read-record"
asked_type list = "https://affinidi.com/didcomm/protocols/tr-admin/1.0/list-records"
asked_type unknown = ""

abbrev pub audited_as : Request → AuditOperation
audited_as create = Model.create
audited_as update = Model.update
audited_as delete = Model.delete
audited_as read = Model.read
audited_as list = Model.list
audited_as unknown = Model.create

-- The text that the body has under the key, if it is an object and that is a text
abbrev pub named : String → Value → Option String
named key body = and_then (get_key key body) as_str

-- Each identifier that the body names, for itself
abbrev pub named_resource : Value → AuditResource
named_resource body = record {
  entity_id = and_then (named "entity_id" body) (λ s. some (record { text = s }));
  authority_id = and_then (named "authority_id" body) (λ s. some (record { text = s }));
  action = and_then (named "action" body) (λ s. some (record { text = s }));
  resource = and_then (named "resource" body) (λ s. some (record { text = s }));
}

-- A problem report with the code and the comment
pub record Reports (code comment : String) (message : Message) : Type 0 where
  pub type_ : message.type_ ≡ "https://didcomm.org/report-problem/2.0/problem-report"
  pub code_text : named "code" message.body ≡ some code
  pub comment_text : named "comment" message.body ≡ some comment

request_of-asked_type :
    (request : Request) → request ≢ unknown → request_of (asked_type request) ≡ request
unfolding request_of String-discrete
request_of-asked_type create h = refl
request_of-asked_type update h = refl
request_of-asked_type delete h = refl
request_of-asked_type read h = refl
request_of-asked_type list h = refl
request_of-asked_type unknown h = absurd (h refl)

pub asked_type-request_of :
    (request : Request) (type_ : String)
    → request ≢ unknown
    → type_ ≡ asked_type request
    → request_of type_ ≡ request
asked_type-request_of request type_ known e = ap request_of e ∙ request_of-asked_type request known

pub audited_as-operation_of : (request : Request) → operation_of request ≡ audited_as request
audited_as-operation_of create = refl
audited_as-operation_of update = refl
audited_as-operation_of delete = refl
audited_as-operation_of read = refl
audited_as-operation_of list = refl
audited_as-operation_of unknown = refl

-- What is left of a problem report in the message that is built of it
pub record Built (code comment : String) (thid : Option String) (message : Message) : Type 0 where
  pub reports : Reports code comment message
  pub threaded : (t : String) → thid ≡ some t → message.thid ≡ some t

pub report-Reports :
    (code comment : String) (message : Message)
    → message.type_ ≡ "https://didcomm.org/report-problem/2.0/problem-report"
    → message.body ≡ to_body (ProblemReport.new code comment)
    → Reports code comment message
unfolding ProblemReport.new to_body get_key get_field String-discrete
report-Reports code comment message e f = record {
  type_ = e;
  code_text = ap (named "code") f;
  comment_text = ap (named "comment") f;
}

pub build_problem_report-Built :
    (sdk : Sdk) (calls : List Call) (from to code comment : String) (thid pthid : Option String)
    → Built code comment thid
        (build_problem_report sdk calls from to (ProblemReport.new code comment) thid pthid)
unfolding build_problem_report build_response
build_problem_report-Built sdk calls from to code comment thid none = record {
  reports = report-Reports code comment _ refl refl;
  threaded = λ t e. ap (λ o. some (unwrap_or o (sdk.new_uuid calls 1))) e;
}
build_problem_report-Built sdk calls from to code comment thid (some parent) = record {
  reports = report-Reports code comment _ refl refl;
  threaded = λ t e. ap (λ o. some (unwrap_or o (sdk.new_uuid calls 1))) e;
}

unless_empty :
    (a : Option EntityId) (b : Option AuthorityId) (c : Option Action) (d : Option Resource)
    → (if is_some a || is_some b || is_some c || is_some d
        then record { entity_id = a; authority_id = b; action = c; resource = d }
        else Model.empty)
      ≡ record { entity_id = a; authority_id = b; action = c; resource = d }
unless_empty (some a) b c d = refl
unless_empty none (some b) c d = refl
unless_empty none none (some c) d = refl
unless_empty none none none (some d) = refl
unless_empty none none none none = refl

resource_in-named : (body : Value) → resource_in body ≡ named_resource body
unfolding get_key
resource_in-named (obj fs) =
    unless_empty (text_at (λ s. record { text = s }) "entity_id" fs)
      (text_at (λ s. record { text = s }) "authority_id" fs)
      (text_at (λ s. record { text = s }) "action" fs)
      (text_at (λ s. record { text = s }) "resource" fs)
resource_in-named null = refl
resource_in-named (bool b) = refl
resource_in-named (num n) = refl
resource_in-named (str s) = refl
resource_in-named (arr xs) = refl

pub resource_lem :
    (message : Message) → extract_audit_resource message ≡ named_resource message.body
unfolding extract_audit_resource get_key
resource_lem message = resource_in-named message.body
