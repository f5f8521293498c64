-- ===== src/Didcomm/ProblemReport.antt =====
-- `ProblemReport` of trust-registry/src/didcomm/problem_report.rs. `json!` of a list of texts is an
-- array of texts, and `body[key] = value` sets an entry of an object.
use affinidi_trust_registry.Json.{Value, str, arr, obj, Fields, fields, items, insert_field}
use affinidi_trust_registry.Prelude.{String, Option, none, some, List, [], ◌∷◌, map}

abbrev pub error_unauthorized : String
error_unauthorized = "e.p.msg.unauthorized"

abbrev pub error_bad_request : String
error_bad_request = "e.p.msg.bad-request"

abbrev pub error_not_found : String
error_not_found = "e.p.msg.not-found"

abbrev pub error_conflict : String
error_conflict = "e.p.msg.conflict"

abbrev pub error_internal : String
error_internal = "e.p.msg.internal-error"

pub record ProblemReport : Type 0 where
  pub code : String
  pub comment : String
  pub args : Option (List String)
  pub escalate_to : Option String

unfoldable pub new : (code comment : String) → ProblemReport
new code comment = record { code = code; comment = comment; args = none; escalate_to = none }

unfoldable pub unauthorized : String → ProblemReport
unfolding new
unauthorized comment = new error_unauthorized comment

unfoldable pub bad_request : String → ProblemReport
unfolding new
bad_request comment = new error_bad_request comment

unfoldable pub not_found : String → ProblemReport
unfolding new
not_found comment = new error_not_found comment

unfoldable pub conflict : String → ProblemReport
unfolding new
conflict comment = new error_conflict comment

unfoldable pub internal_error : String → ProblemReport
unfolding new
internal_error comment = new error_internal comment

unfoldable pub with_args : List String → ProblemReport → ProblemReport
with_args args report = record report { args = some args }

unfoldable pub with_escalate_to : String → ProblemReport → ProblemReport
with_escalate_to escalate_to report = record report { escalate_to = some escalate_to }

abbrev set_args : Option (List String) → Fields → Fields
set_args none body = body
set_args (some args) body = insert_field "args" (arr (items (map str args))) body

abbrev set_escalate_to : Option String → Fields → Fields
set_escalate_to none body = body
set_escalate_to (some escalate_to) body = insert_field "escalate_to" (str escalate_to) body

unfoldable pub to_body : ProblemReport → Value
to_body report = obj (
    set_escalate_to report.escalate_to (
      set_args report.args
        (fields (("code", str report.code) ∷ ("comment", str report.comment) ∷ []))))
