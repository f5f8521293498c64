-- ===== src/Didcomm/Handlers/Routing.antt =====
-- What a message of any type does to the registry, over a repository that implements it.
use affinidi_trust_registry.Storage.Repository.{TrustRecordAdminRepository, TrustRecordQuery}
use affinidi_trust_registry.Storage.Registry.{Registry, Implements}
use affinidi_trust_registry.Didcomm.Message.{Message}
use affinidi_trust_registry.Didcomm.World.{Sdk, Profile, World}
use affinidi_trust_registry.Didcomm.Transport.{problem_report_type}
use affinidi_trust_registry.Didcomm.Admin.Messages.{Decoder}
use affinidi_trust_registry.Didcomm.Admin.Handler as Admin
use affinidi_trust_registry.Didcomm.Admin.Handler.{HandlerContext, request_of, unknown}
use affinidi_trust_registry.Didcomm.Admin.Handler.Effects.{Stands}
use affinidi_trust_registry.Didcomm.Admin.Handler.Asked.{asked, meaning-asked, handle-Asked}
use affinidi_trust_registry.Didcomm.Trqp
use affinidi_trust_registry.Didcomm.Trqp.{QueryCodec}
use affinidi_trust_registry.Didcomm.Handlers.{context_of, handle, build}
use affinidi_trust_registry.Prelude.{
  sym, ◌∙◌, String, ◌≡◌, [], ◌∷◌, refl, true, false, List, ok, err, contains, string_eq,
  String-discrete, if◌then◌else◌, arith, Bool-cases, Bool, Result-cases, inl, inr,
}

request_of-query_authorization : request_of Trqp.query_authorization_type ≡ unknown
unfolding request_of String-discrete
request_of-query_authorization = refl

request_of-query_recognition : request_of Trqp.query_recognition_type ≡ unknown
unfolding request_of String-discrete
request_of-query_recognition = refl

-- No query is an administration request.
request_of_query : (t : String) → contains Trqp.supported t ≡ true → request_of t ≡ unknown
request_of_query t h = ground (arith, request_of-query_authorization, request_of-query_recognition)

request_of_other : (t : String) → contains Admin.supported t ≡ false → request_of t ≡ unknown
unfolding request_of
request_of_other t h = ground arith

module _ {S : Type 0} {IsValid : S → Type 0} {view : S → Registry} (sdk : Sdk) (profile : Profile)
    (decoder : Decoder) (codec : QueryCodec) (repo : TrustRecordAdminRepository S)
    (admin_dids : List String) (impl : Implements IsValid view repo) where
  -- A query that can be read leaves the store that the repository's search leaves.
  store-query :
      (ctx : HandlerContext) (message : Message) (w : World S) {query : TrustRecordQuery}
      → codec.query message.body ≡ ok query
      → (Trqp.handle sdk profile codec repo.queries ctx message w).1.store
        ≡ (repo.queries.find_by_query query w.store).1
  unfolding Trqp.handle Trqp.send_output
  store-query ctx message w e = ground arith

  store-unread :
      (ctx : HandlerContext) (message : Message) (w : World S) {e : String}
      → codec.query message.body ≡ err e
      → (Trqp.handle sdk profile codec repo.queries ctx message w).1.store ≡ w.store
  unfolding Trqp.handle Trqp.send_output
  store-unread ctx message w e = ground arith

  abbrev pub StandsFor : Registry → S → Type 0
  StandsFor = Stands {IsValid = IsValid} {view = view} sdk profile decoder repo admin_dids impl

  query-Stands :
      (ctx : HandlerContext) (message : Message) (w : World S)
      → IsValid w.store
      → StandsFor (view w.store) (Trqp.handle sdk profile codec repo.queries ctx message w).1.store
  query-Stands ctx message w v = elim (Result-cases (codec.query message.body)) [
    | inl (query, e) ↦
        let m = impl.find query w.store tt v in
        rw (store-query ctx message w e) (record { valid = m.valid_after; views = m.view_after })
    | inr (problem, e) ↦ rw (store-unread ctx message w e) (record { valid = v; views = refl })
  ]

  abbrev pub after : Bool → Message → Registry → Registry
  after admin message reg = if admin then asked decoder message reg else reg

  after_unknown :
      (admin : Bool) (message : Message) (reg : Registry)
      → request_of message.type_ ≡ unknown
      → after admin message reg ≡ reg
  after_unknown true message reg e = sym (meaning-asked decoder message reg) ∙ rw e refl
  after_unknown false message reg e = refl

  -- After a message of any type, read by the handlers that the service builds, the store is valid and
  -- stands for the registry that the message means: for an administrator's create, update or delete
  -- request, by the names of the protocol, whose body can be read, the result of that operation of the
  -- registry at the record or the key that the body names, and the registry from before for every
  -- other sender and every other message, queries and problem reports included.
  pub service-Stands :
      (message : Message) (w : World S)
      → IsValid w.store
      → StandsFor
          (after (contains admin_dids (context_of message).sender_did) message (view w.store))
          (handle (build sdk profile decoder codec repo admin_dids) message w).1.store
  unfolding handle build
  service-Stands message w v = elim (Bool-cases (contains Trqp.supported message.type_)) [
    | inl query ↦
        rw
          (
            query,
            after_unknown (contains admin_dids (context_of message).sender_did) message
                (view w.store) (request_of_query message.type_ query),
          )
          (query-Stands (context_of message) message w v)
    | inr other ↦ elim (Bool-cases (contains Admin.supported message.type_)) [
      | inl request ↦
          rw (other, request)
            (handle-Asked {IsValid = IsValid} {view = view} sdk profile decoder repo admin_dids impl
              (context_of message) message w v)
      | inr odd ↦
          rw
            (
              other,
              odd,
              after_unknown (contains admin_dids (context_of message).sender_did) message
                  (view w.store) (request_of_other message.type_ odd),
            )
            (elim (Bool-cases (contains (problem_report_type ∷ []) message.type_)) [
              | inl report ↦ rw report (record { valid = v; views = refl })
              | inr ignored ↦ rw ignored (record { valid = v; views = refl })
            ])
    ]
  ]
