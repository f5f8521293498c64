-- ===== src/Http/Trqp.antt =====
-- trust-registry/src/http/handlers/trqp/mod.rs: the two query endpoints. What the extractor makes
-- of the body, the readings of the clock (as `to_rfc3339_opts` prints them) and the derived
-- `Serialize` of the output are parameters.
pub mod Answers
use affinidi_trust_registry.Domain.Ids.{TrustRecordIds}
use affinidi_trust_registry.Domain.Context.{Context}
use affinidi_trust_registry.Domain.TrustRecord.{
  TrustRecord, merge_contexts, none_recognized, none_authorized,
}
use affinidi_trust_registry.Storage.Repository
use affinidi_trust_registry.Storage.Repository.{from_ids, RepositoryError, TrustRecordRepository}
use affinidi_trust_registry.Json.{Value, obj, arr, str, Fields, field, no_fields, object, array}
use affinidi_trust_registry.Http.Error.{
  AppError, bad_request, not_found, internal, Response, into_response,
}
use affinidi_trust_registry.Prelude.Effect.{Effect, pure, lift, with_error, ◌>>=◌}
use affinidi_trust_registry.Prelude.{
  String, ◌<>◌, Option, none, some, List, [], ◌∷◌, Result, ok, err, map_err, ok_or,
}

pub record OutputDto : Type 0 where
  pub trust_record : TrustRecord
  pub time_requested : String
  pub time_evaluated : String
  pub message : String

pub record InputDto : Type 0 where
  pub ids : TrustRecordIds
  pub context : Option Context

-- The extractor's rejection of a body: what `body_text` gives, and what it displays
pub record JsonRejection : Type 0 where
  pub body_text : String
  pub display : String

-- The request's context, if it has one, over the record's
unfoldable pub with_context : Option Context → TrustRecord → TrustRecord
unfolding merge_contexts
with_context none r = r
with_context (some c) r = merge_contexts r c

unfoldable pub rejected : JsonRejection → AppError
rejected e = bad_request e.display (some (array (object (("issue", str e.body_text) ∷ []) ∷ [])))

unfoldable pub missing : AppError
missing = not_found "Trust record not found" none

module _ {S : Type 0} (repo : TrustRecordRepository S) where
  unfoldable pub handle_trqp : Result InputDto JsonRejection → Effect S AppError TrustRecord
  unfolding from_ids with_context rejected missing
  handle_trqp payload = do
    input ← lift (map_err rejected payload)
    found ←
        with_error (λ e. internal (Repository.error_text e) none)
          (repo.find_by_query (from_ids input.ids))
    trust_record ← lift (ok_or found missing)
    pure (with_context input.context trust_record)

  unfoldable pub handle_trqp_authorization :
      (requested_at evaluated_at : String)
      → Result InputDto JsonRejection
      → Effect S AppError OutputDto
  unfolding handle_trqp none_recognized
  handle_trqp_authorization requested_at evaluated_at payload = do
    found ← handle_trqp payload
    let trust_record = none_recognized found
    pure record {
      trust_record = trust_record;
      time_requested = requested_at;
      time_evaluated = evaluated_at;
      message =
          trust_record.entity_id.text <> " authorized to " <> trust_record.action.text <> "+"
          <> trust_record.resource.text <> " by " <> trust_record.authority_id.text;
    }

  unfoldable pub handle_trqp_recognition :
      (requested_at evaluated_at : String)
      → Result InputDto JsonRejection
      → Effect S AppError OutputDto
  unfolding handle_trqp none_authorized
  handle_trqp_recognition requested_at evaluated_at payload = do
    found ← handle_trqp payload
    let trust_record = none_authorized found
    pure record {
      trust_record = trust_record;
      time_requested = requested_at;
      time_evaluated = evaluated_at;
      message = trust_record.entity_id.text <> " recognized by " <> trust_record.authority_id.text;
    }

-- What the server sends for the result of a handler
unfoldable pub respond : (OutputDto → Value) → Result OutputDto AppError → Response
unfolding into_response
respond to_value (ok output) = record { status = 200; body = to_value output }
respond to_value (err e) = into_response e
