-- ===== src/Didcomm/Handlers.antt =====
-- trust-registry/src/didcomm/handlers/mod.rs and build.rs: one message goes to the first protocol
-- handler that supports its type. `ProblemReportHandler` (problem_report/mod.rs) only logs.
pub mod Routing
use affinidi_trust_registry.Storage.Repository.{TrustRecordAdminRepository}
use affinidi_trust_registry.Didcomm.Message.{Message, get_thread_id, get_parent_thread_id}
use affinidi_trust_registry.Didcomm.World.{Sdk, Profile, World}
use affinidi_trust_registry.Didcomm.Transport.{problem_report_type}
use affinidi_trust_registry.Didcomm.Admin.Messages.{Decoder}
use affinidi_trust_registry.Didcomm.Admin.Handler as Admin
use affinidi_trust_registry.Didcomm.Admin.Handler.{HandlerContext}
use affinidi_trust_registry.Didcomm.Trqp
use affinidi_trust_registry.Didcomm.Trqp.{QueryCodec}
use affinidi_trust_registry.Prelude.Effect.{Effect, pure}
use affinidi_trust_registry.Prelude.{
  String, Option, none, some, or_else, unwrap_or, List, [], ◌∷◌, find, ok, contains, string_eq,
}

-- A protocol handler: what it supports, and what it does
pub record ProtocolHandler (S : Type 0) : Type 0 where
  pub supports : List String
  pub handle : HandlerContext → Message → Effect (World S) String (Unit {0})

unfoldable pub context_of : Message → HandlerContext
unfolding get_thread_id get_parent_thread_id
context_of message = record {
  sender_did = unwrap_or message.from "anon";
  thid = or_else (get_thread_id message) (some message.id);
  pthid = get_parent_thread_id message;
}

abbrev handle_by :
    {S : Type 0}
    → Option (ProtocolHandler S)
    → HandlerContext
    → Message
    → Effect (World S) String (Unit {0})
handle_by none ctx message = pure tt
handle_by (some ph) ctx message = ph.handle ctx message

-- `handle` of `BaseHandler`; a type that no handler supports is logged and ignored.
unfoldable pub handle :
    {S : Type 0} → List (ProtocolHandler S) → Message → Effect (World S) String (Unit {0})
unfolding context_of
handle handlers message =
    handle_by (find (λ ph. contains ph.supports message.type_) handlers) (context_of message)
      message

module _ {S : Type 0} (sdk : Sdk) (profile : Profile) (decoder : Decoder) (codec : QueryCodec)
    (repo : TrustRecordAdminRepository S) (admin_dids : List String) where
  -- `build_from_arc`: the handlers in their order
  unfoldable pub build : List (ProtocolHandler S)
  unfolding Trqp.handle Admin.handle
  build =
      record { supports = Trqp.supported; handle = Trqp.handle sdk profile codec repo.queries }
      ∷ record {
        supports = Admin.supported;
        handle = Admin.handle sdk profile decoder repo admin_dids;
      }
      ∷ record { supports = problem_report_type ∷ []; handle = λ ctx message. pure tt }
      ∷ []
