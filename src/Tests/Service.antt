-- ===== src/Tests/Service.antt =====
-- The message handlers and the endpoints over the local storage.
use affinidi_trust_registry.Storage.Local.{local_repository}
use affinidi_trust_registry.Storage.Local.Refines as Local
use affinidi_trust_registry.Storage.Local.Refines.{local_repository-Implements}
use affinidi_trust_registry.Didcomm.Handlers
use affinidi_trust_registry.Didcomm.Handlers.{context_of, build}
use affinidi_trust_registry.Didcomm.Handlers.Routing.{StandsFor, after, service-Stands}
use affinidi_trust_registry.Didcomm.Admin.Handler.{handle}
use affinidi_trust_registry.Didcomm.Admin.Handler.Effects.{Stands}
use affinidi_trust_registry.Didcomm.Admin.Handler.Asked.{asked, handle-Asked}
use affinidi_trust_registry.Http.Trqp.{
  OutputDto, InputDto, handle_trqp_authorization, handle_trqp_recognition,
}
use affinidi_trust_registry.Http.Trqp.Answers.{
  Answers, authorization_answer, recognition_answer, handle_trqp_authorization-Answers,
  handle_trqp_recognition-Answers,
}
use affinidi_trust_registry.Json.{Value, str, object}
use affinidi_trust_registry.Tests.Fixtures.{
  passport, stored-IsValidMap, storage, sdk, profile, decoder, codec, admin, create_licence,
  context_of_admin, world,
}
use affinidi_trust_registry.Prelude.{
  String, some, List, [], ◌∷◌, ok, contains, string_eq, if◌then◌else◌,
}

abbrev admins : List String
admins = admin ∷ []

service-Stands_example :
    StandsFor {IsValid = Local.IsValid} {view = Local.view} sdk profile decoder codec
      local_repository admins local_repository-Implements
      (after sdk profile decoder codec local_repository admins local_repository-Implements
        (contains admins (context_of create_licence).sender_did)
        create_licence
        (Local.view storage))
      (Handlers.handle
        (build sdk profile decoder codec local_repository admins)
        create_licence
        world).1.store
service-Stands_example =
    service-Stands {IsValid = Local.IsValid} {view = Local.view} sdk profile decoder codec
      local_repository admins local_repository-Implements create_licence world stored-IsValidMap

handle-Asked_example :
    Stands {IsValid = Local.IsValid} {view = Local.view} sdk profile decoder local_repository admins
      local_repository-Implements
      (if contains admins context_of_admin.sender_did
        then asked decoder create_licence (Local.view storage)
        else Local.view storage)
      (handle sdk profile decoder local_repository admins context_of_admin create_licence
        world).1.store
handle-Asked_example =
    handle-Asked {IsValid = Local.IsValid} {view = Local.view} sdk profile decoder local_repository
      admins local_repository-Implements context_of_admin create_licence world stored-IsValidMap

abbrev output_value : OutputDto → Value
output_value output = object (("message", str output.message) ∷ [])

abbrev input : InputDto
input = record {
  ids = record {
    entity_id = passport.entity_id;
    authority_id = passport.authority_id;
    action = passport.action;
    resource = passport.resource;
  };
  context = some (record { value = object (("purpose", str "travel") ∷ []) });
}

handle_trqp_authorization-Answers_example :
    Answers output_value "noon" "later" Local.IsValid Local.view
      (authorization_answer output_value "noon" "later" (ok input) (Local.view storage))
      (Local.view storage)
      (handle_trqp_authorization local_repository.queries "noon" "later" (ok input) storage)
handle_trqp_authorization-Answers_example =
    handle_trqp_authorization-Answers output_value "noon" "later" local_repository
      local_repository-Implements (ok input) storage stored-IsValidMap

handle_trqp_recognition-Answers_example :
    Answers output_value "noon" "later" Local.IsValid Local.view
      (recognition_answer output_value "noon" "later" (ok input) (Local.view storage))
      (Local.view storage)
      (handle_trqp_recognition local_repository.queries "noon" "later" (ok input) storage)
handle_trqp_recognition-Answers_example =
    handle_trqp_recognition-Answers output_value "noon" "later" local_repository
      local_repository-Implements (ok input) storage stored-IsValidMap
