-- ===== src/Didcomm/Admin/Messages.antt =====
-- trust-registry/src/didcomm/handlers/admin/messages.rs. The derived `Deserialize` of the request
-- types is a parameter: from the body of a message to the request, or the error's text.
use affinidi_trust_registry.Domain.RecordType.{RecordType, error_text, from_str}
use affinidi_trust_registry.Domain.TrustRecord.{TrustRecord, is_recognized, is_authorized}
use affinidi_trust_registry.Domain.Builder
use affinidi_trust_registry.Domain.Builder.{TrustRecordBuilder}
use affinidi_trust_registry.Storage.Repository
use affinidi_trust_registry.Storage.Repository.{
  TrustRecordQuery, TrustRecordList, TrustRecordAdminRepository,
}
use affinidi_trust_registry.Json.{Value, str, bool, num, unsigned, object, array}
use affinidi_trust_registry.Didcomm.Message.{Message}
use affinidi_trust_registry.Didcomm.World.{World, on_store}
use affinidi_trust_registry.Prelude.Outcome
use affinidi_trust_registry.Prelude.Effect.{Effect, pure, lift, ◌>>=◌, ◌>>◌}
use affinidi_trust_registry.Prelude.{
  String, Bool, Option, none, some, [], ◌∷◌, map, Result, map_err, length,
}

-- `CreateRecordRequest`; `UpdateRecordRequest` has the same fields.
pub record RecordRequest : Type 0 where
  pub entity_id : String
  pub authority_id : String
  pub action : String
  pub resource : String
  pub recognized : Bool
  pub authorized : Bool
  pub context : Option Value
  pub record_type : String

-- `DeleteRecordRequest` and `ReadRecordRequest`
pub record KeyRequest : Type 0 where
  pub entity_id : String
  pub authority_id : String
  pub action : String
  pub resource : String

-- `serde_json::from_value` at the four request types
pub record Decoder : Type 0 where
  pub create_request : Value → Result RecordRequest String
  pub update_request : Value → Result RecordRequest String
  pub delete_request : Value → Result KeyRequest String
  pub read_request : Value → Result KeyRequest String

abbrev set_context : Option Value → TrustRecordBuilder → TrustRecordBuilder
set_context none b = b
set_context (some ctx) b = Builder.context (record { value = ctx }) b

-- The calls of the builder in `handle_create_record` and `handle_update_record`
unfoldable pub request_builder : RecordRequest → RecordType → TrustRecordBuilder
unfolding Builder.new Builder.entity_id Builder.authority_id Builder.action Builder.resource
    Builder.recognized Builder.authorized Builder.record_type Builder.context
request_builder request record_type =
    let b = Builder.entity_id (record { text = request.entity_id }) Builder.new in
    let b' = Builder.authority_id (record { text = request.authority_id }) b in
    let b'' = Builder.action (record { text = request.action }) b' in
    let b3 = Builder.resource (record { text = request.resource }) b'' in
    let b4 = Builder.recognized request.recognized b3 in
    let b5 = Builder.authorized request.authorized b4 in
    set_context request.context (Builder.record_type record_type b5)

abbrev pub ids_json : (entity_id authority_id action resource : String) → Value
ids_json entity_id authority_id action resource = object (
    ("entity_id", str entity_id)
    ∷ ("authority_id", str authority_id)
    ∷ ("action", str action)
    ∷ ("resource", str resource)
    ∷ [])

abbrev pub request_query : KeyRequest → TrustRecordQuery
request_query request = record {
  entity_id = record { text = request.entity_id };
  authority_id = record { text = request.authority_id };
  action = record { text = request.action };
  resource = record { text = request.resource };
}

-- The JSON form of a record that `read-record` and `list-records` answer with
unfoldable pub record_json : TrustRecord → Value
unfolding is_recognized is_authorized
record_json r = object (
    ("entity_id", str r.entity_id.text)
    ∷ ("authority_id", str r.authority_id.text)
    ∷ ("action", str r.action.text)
    ∷ ("resource", str r.resource.text)
    ∷ ("recognized", bool (is_recognized r))
    ∷ ("authorized", bool (is_authorized r))
    ∷ ("context", r.context.value)
    ∷ [])

-- The record of a request, or the text of the first error
unfoldable pub request_record : RecordRequest → Result TrustRecord String
unfolding request_builder from_str error_text Builder.build
request_record request =
    Outcome.◌>>=◌ (map_err error_text (from_str request.record_type))
      (λ record_type. map_err error_text (Builder.build (request_builder request record_type)))

module _ {S : Type 0} (decoder : Decoder) (repo : TrustRecordAdminRepository S) where
  abbrev Handled : Type 0
  Handled = Effect (World S) String Value

  unfoldable pub handle_create_record : Message → Handled
  unfolding Repository.error_text
  handle_create_record message = do
    request ← lift (decoder.create_request message.body)
    r ← lift (request_record request)
    on_store Repository.error_text (repo.create r)
    pure (ids_json request.entity_id request.authority_id request.action request.resource)

  unfoldable pub handle_update_record : Message → Handled
  unfolding Repository.error_text
  handle_update_record message = do
    request ← lift (decoder.update_request message.body)
    r ← lift (request_record request)
    on_store Repository.error_text (repo.update r)
    pure (ids_json request.entity_id request.authority_id request.action request.resource)

  unfoldable pub handle_delete_record : Message → Handled
  unfolding Repository.error_text
  handle_delete_record message = do
    request ← lift (decoder.delete_request message.body)
    on_store Repository.error_text (repo.delete (request_query request))
    pure (ids_json request.entity_id request.authority_id request.action request.resource)

  unfoldable pub handle_read_record : Message → Handled
  unfolding Repository.error_text record_json
  handle_read_record message = do
    request ← lift (decoder.read_request message.body)
    r ← on_store Repository.error_text (repo.read (request_query request))
    pure (record_json r)

  unfoldable pub handle_list_records : Handled
  unfolding Repository.error_text record_json
  handle_list_records = do
    record_list ← on_store Repository.error_text repo.list
    let records_json = map record_json record_list.records
    pure (
        object
          (("records", array records_json) ∷ ("count", num (unsigned (length records_json))) ∷ []))
