-- ===== src/Didcomm/Transport/Traces.antt =====
-- Sending leaves the store and the audit entries alone, and packs one message, whatever the SDK
-- answers.
use mathlib.Core.List.{append-nil}
use affinidi_trust_registry.Json.{Value}
use affinidi_trust_registry.Didcomm.Message.{Message}
use affinidi_trust_registry.Didcomm.World.{
  Call, pack, forward, audit, Sdk, Profile, World, audits, messages,
}
use affinidi_trust_registry.Didcomm.ProblemReport.{ProblemReport}
use affinidi_trust_registry.Didcomm.Transport.{
  pack_and_forward, build_response, build_problem_report, send_response, send_problem_report,
}
use affinidi_trust_registry.Prelude.{
  String, ◌≡◌, refl, ap, Option, List, [], ◌∷◌, ◌++◌, Result-cases, inl, inr,
}

pub audits-append : (xs ys : List Call) → audits (xs ++ ys) ≡ audits xs ++ audits ys
audits-append [] ys = refl
audits-append (audit entry ∷ xs) ys = ap (◌∷◌ entry) (audits-append xs ys)
audits-append (pack message to from sign_by ∷ xs) ys = audits-append xs ys
audits-append (forward packed id mediator to ∷ xs) ys = audits-append xs ys

pub messages-append : (xs ys : List Call) → messages (xs ++ ys) ≡ messages xs ++ messages ys
messages-append [] ys = refl
messages-append (audit entry ∷ xs) ys = messages-append xs ys
messages-append (pack message to from sign_by ∷ xs) ys =
    ap (◌∷◌ (message, to)) (messages-append xs ys)
messages-append (forward packed id mediator to ∷ xs) ys = messages-append xs ys

-- What sending one message does: the store and the audit entries stay, the message is packed.
pub record Sends {S : Type 0} (message : Message) (to : String) (before after : World S)
    : Type 0 where
  pub store : after.store ≡ before.store
  pub audited : audits after.calls ≡ audits before.calls
  pub sent : messages after.calls ≡ messages before.calls ++ (message, to) ∷ []

module _ {S : Type 0} (sdk : Sdk) (profile : Profile) where
  pub pack_and_forward-Sends :
      (message : Message) (to : String) (w : World S)
      → Sends message to w (pack_and_forward sdk profile message to w).1
  pack_and_forward-Sends message to w =
      let packed = w.calls ++ pack message to profile.did profile.did ∷ [] in
      elim (Result-cases (sdk.packed packed)) [
        | inl (text, e) ↦ rw e (record {
          store = refl;
          audited = simp (audits-append, append-nil);
          sent = simp (messages-append, append-nil);
        })
        | inr (problem, e) ↦ rw e (record {
          store = refl;
          audited = simp (audits-append, append-nil);
          sent = simp messages-append;
        })
      ]

  pub send_response-Sends :
      (message_type : String) (body : Value) (to : String) (thid pthid : Option String)
      (w : World S)
      → Sends
          (build_response sdk w.calls message_type profile.did to body thid pthid)
          to
          w
          (send_response sdk profile message_type body to thid pthid w).1
  unfolding send_response
  send_response-Sends message_type body to thid pthid w = pack_and_forward-Sends _ to w

  pub send_problem_report-Sends :
      (report : ProblemReport) (to : String) (thid pthid : Option String) (w : World S)
      → Sends
          (build_problem_report sdk w.calls profile.did to report thid pthid)
          to
          w
          (send_problem_report sdk profile report to thid pthid w).1
  unfolding send_problem_report
  send_problem_report-Sends report to thid pthid w = pack_and_forward-Sends _ to w
