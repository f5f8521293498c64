-- ===== src/Didcomm/Trqp.antt =====
-- trust-registry/src/didcomm/handlers/trqp/mod.rs: the queries. The derived `Deserialize` of a
-- query and `Serialize` of a record are parameters, as is whether the latter fails.
use affinidi_trust_registry.Domain.TrustRecord.{TrustRecord}
use affinidi_trust_registry.Storage.Repository
use affinidi_trust_registry.Storage.Repository.{TrustRecordQuery, TrustRecordRepository}
use affinidi_trust_registry.Json.{Value, obj, no_fields}
use affinidi_trust_registry.Didcomm.Message.{Message, build}
use affinidi_trust_registry.Didcomm.World.{
  Sdk, Profile, World, on_store, pack_encrypted, forward_and_send_message,
}
use affinidi_trust_registry.Didcomm.Admin.Handler.{HandlerContext}
use affinidi_trust_registry.Prelude.Effect.{Effect, lift, ◌>>=◌}
use affinidi_trust_registry.Prelude.{
  String, ◌<>◌, Option, none, some, List, [], ◌∷◌, Result, ok, err,
}

abbrev pub query_authorization_type : String
query_authorization_type = "https://affinidi.com/didcomm/protocols/trqp/1.0/query-authorization"

abbrev pub query_recognition_type : String
query_recognition_type = "https://affinidi.com/didcomm/protocols/trqp/1.0/query-recognition"

-- `get_supported_inbound_message_types`
abbrev pub supported : List String
supported = query_authorization_type ∷ query_recognition_type ∷ []

-- `from_value` at `TrustRecordQuery` and `to_value` at `TrustRecord`
pub record QueryCodec : Type 0 where
  pub query : Value → Result TrustRecordQuery String
  pub record_value : TrustRecord → Result Value String

module _ {S : Type 0} (sdk : Sdk) (profile : Profile) (codec : QueryCodec)
    (repo : TrustRecordRepository S) where
  abbrev output_body : Option TrustRecord → Result Value String
  output_body none = ok (obj no_fields)
  output_body (some r) = codec.record_value r

  abbrev pub output_message : HandlerContext → Message → Value → World S → Message
  output_message ctx message body w =
      build (sdk.new_uuid w.calls 0) (message.type_ <> "/response") body profile.did ctx.sender_did

  -- A failure to pack is the handler's error; a failure to forward is logged and dropped.
  unfoldable pub send_output : HandlerContext → Message → Value → Effect (World S) String (Unit {0})
  send_output ctx message body w =
      let output = output_message ctx message body w in
      let (packed, w') = pack_encrypted sdk output ctx.sender_did profile.did profile.did w in
      elim packed [
        | err e ↦ (err e, w')
        | ok text ↦ (
          ok tt,
          (forward_and_send_message sdk text output.id profile.mediator ctx.sender_did w').1,
        )
      ]

  -- `handle`: the errors of the body, of the store and of the packing go to the caller.
  unfoldable pub handle : HandlerContext → Message → Effect (World S) String (Unit {0})
  unfolding send_output
  handle ctx message = do
    query ← lift (codec.query message.body)
    found ← on_store Repository.error_text (repo.find_by_query query)
    body ← lift (output_body found)
    send_output ctx message body
