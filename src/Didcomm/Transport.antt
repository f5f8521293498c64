-- ===== src/Didcomm/Transport.antt =====
-- trust-registry/src/didcomm/transport.rs, and `send_problem_report` of problem_report.rs.
pub mod Traces
use affinidi_trust_registry.Json.{Value, str, insert_field}
use affinidi_trust_registry.Didcomm.Message.{Message, build}
use affinidi_trust_registry.Didcomm.World.{
  Call, Sdk, Profile, World, pack_encrypted, forward_and_send_message,
}
use affinidi_trust_registry.Didcomm.ProblemReport.{ProblemReport, to_body}
use affinidi_trust_registry.Prelude.Effect.{Effect, ◌>>=◌}
use affinidi_trust_registry.Prelude.{String, Option, none, some, unwrap_or, List}

abbrev pub problem_report_type : String
problem_report_type = "https://didcomm.org/report-problem/2.0/problem-report"

abbrev with_parent : Option String → Message → Message
with_parent none message = message
with_parent (some parent_id) message = record message {
  headers = insert_field "pthid" (str parent_id) message.headers;
}

module _ (sdk : Sdk) where
  -- A thread identifier is drawn where none is given.
  unfoldable pub build_response :
      List Call → (type_ from to : String) → Value → (thid pthid : Option String) → Message
  build_response calls type_ from to body thid pthid =
      let id = sdk.new_uuid calls 0 in
      with_parent pthid (record (build id type_ body from to) {
        thid = some (unwrap_or thid (sdk.new_uuid calls 1));
      })

  unfoldable pub build_problem_report :
      List Call → (from to : String) → ProblemReport → (thid pthid : Option String) → Message
  unfolding build_response to_body
  build_problem_report calls from to report thid pthid =
      build_response calls problem_report_type from to (to_body report) thid pthid

  module _ {S : Type 0} (profile : Profile) where
    -- Pack the message for the recipient, and hand it to the mediator.
    abbrev pack_and_forward : Message → String → Effect (World S) String (Unit {0})
    pack_and_forward message recipient = do
      packed ← pack_encrypted sdk message recipient profile.did profile.did
      forward_and_send_message sdk packed message.id profile.mediator recipient

    unfoldable pub send_response :
        (message_type : String)
        → Value
        → (recipient : String) → (thid pthid : Option String) → Effect (World S) String (Unit {0})
    unfolding build_response
    send_response message_type body recipient thid pthid w =
        pack_and_forward (build_response w.calls message_type profile.did recipient body thid pthid)
          recipient w

    unfoldable pub send_problem_report :
        ProblemReport
        → (recipient : String) → (thid pthid : Option String) → Effect (World S) String (Unit {0})
    unfolding build_problem_report
    send_problem_report report recipient thid pthid w =
        pack_and_forward (build_problem_report w.calls profile.did recipient report thid pthid)
          recipient w
