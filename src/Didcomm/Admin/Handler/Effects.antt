-- ===== src/Didcomm/Admin/Handler/Effects.antt =====
-- What an administration message does to the registry, over a repository that implements it.
use affinidi_trust_registry.Domain.TrustRecord.{TrustRecord}
use affinidi_trust_registry.Storage.Repository.{TrustRecordAdminRepository}
use affinidi_trust_registry.Storage.Registry.{Registry, Implements, create_in, update_in, delete_in}
use affinidi_trust_registry.Didcomm.Message.{Message}
use affinidi_trust_registry.Didcomm.World.{Sdk, Profile, World}
use affinidi_trust_registry.Didcomm.Admin.Messages.{
  Decoder, RecordRequest, KeyRequest, request_record, request_query, handle_create_record,
  handle_update_record, handle_delete_record, handle_read_record, handle_list_records,
}
use affinidi_trust_registry.Didcomm.Admin.Handler.{
  HandlerContext, Request, create, update, delete, read, list, unknown, request_of, handle,
  handle_request_of,
}
use affinidi_trust_registry.Didcomm.Admin.Handler.Auditing.{run, handle_rejected, handle-Answered}
use affinidi_trust_registry.Didcomm.ProblemReport
use affinidi_trust_registry.Didcomm.Transport.Traces.{send_problem_report-Sends}
use affinidi_trust_registry.Prelude.{
  String, ◌<>◌, ◌≡◌, ◌≢◌, ◌⊎◌, refl, List, Result, ok, err, contains, string_eq, if◌then◌else◌,
  arith, Bool-cases, Result-cases, inl, inr,
}

abbrev pub or_same : {A : Type 0} → Result A String → (A → Registry) → Registry → Registry
or_same (ok a) f reg = f a
or_same (err e) f reg = reg

unknown-cases : (request : Request) → (request ≡ unknown) ⊎ (request ≢ unknown)
unknown-cases unknown = inl refl
unknown-cases create = inr (λ e. cc)
unknown-cases update = inr (λ e. cc)
unknown-cases delete = inr (λ e. cc)
unknown-cases read = inr (λ e. cc)
unknown-cases list = inr (λ e. cc)

module _ (decoder : Decoder) where
  -- The registry after a request: a create, update or delete whose body can be read changes it as
  -- the registry's operation does, and every other request leaves it.
  abbrev pub meaning : Request → Message → Registry → Registry
  meaning create message reg =
      or_same (decoder.create_request message.body)
        (λ request. or_same (request_record request) (λ r. (create_in r reg).1) reg) reg
  meaning update message reg =
      or_same (decoder.update_request message.body)
        (λ request. or_same (request_record request) (λ r. (update_in r reg).1) reg) reg
  meaning delete message reg =
      or_same (decoder.delete_request message.body)
        (λ request. (delete_in (request_query request) reg).1) reg
  meaning read message reg = reg
  meaning list message reg = reg
  meaning unknown message reg = reg

module _ {S : Type 0} {IsValid : S → Type 0} {view : S → Registry} (sdk : Sdk) (profile : Profile)
    (decoder : Decoder) (repo : TrustRecordAdminRepository S) (admin_dids : List String)
    (impl : Implements IsValid view repo) where
  -- The store is valid and stands for the registry.
  pub record Stands (reg : Registry) (s : S) : Type 0 where
    pub valid : IsValid s
    pub views : view s ≡ reg

  -- A handler that gets as far as the repository leaves the store that the repository leaves.
  store-create :
      (message : Message) (w : World S) {request : RecordRequest} {r : TrustRecord}
      → decoder.create_request message.body ≡ ok request
      → request_record request ≡ ok r
      → (handle_create_record decoder repo message w).1.store ≡ (repo.create r w.store).1
  unfolding handle_create_record
  store-create message w e e' = ground arith

  store-update :
      (message : Message) (w : World S) {request : RecordRequest} {r : TrustRecord}
      → decoder.update_request message.body ≡ ok request
      → request_record request ≡ ok r
      → (handle_update_record decoder repo message w).1.store ≡ (repo.update r w.store).1
  unfolding handle_update_record
  store-update message w e e' = ground arith

  store-delete :
      (message : Message) (w : World S) {request : KeyRequest}
      → decoder.delete_request message.body ≡ ok request
      → (handle_delete_record decoder repo message w).1.store
        ≡ (repo.delete (request_query request) w.store).1
  unfolding handle_delete_record
  store-delete message w e = ground arith

  store-read :
      (message : Message) (w : World S) {request : KeyRequest}
      → decoder.read_request message.body ≡ ok request
      → (handle_read_record decoder repo message w).1.store
        ≡ (repo.read (request_query request) w.store).1
  unfolding handle_read_record
  store-read message w e = ground arith

  store-list : (w : World S) → (handle_list_records decoder repo w).1.store ≡ (repo.list w.store).1
  unfolding handle_list_records
  store-list w = ground arith

  run-Stands :
      (request : Request) (message : Message) (w : World S)
      → IsValid w.store
      → Stands
          (meaning decoder request message (view w.store))
          (run sdk profile decoder repo admin_dids request message w).1.store
  run-Stands create message w v = elim (Result-cases (decoder.create_request message.body)) [
    | inl (request, e) ↦ elim (Result-cases (request_record request)) [
      | inl (r, e') ↦
          let m = impl.create r w.store tt v in
          rw (e, e', store-create message w e e')
            (record { valid = m.valid_after; views = m.view_after })
      | inr (p, e') ↦
          rw (e, e')
            (unfold handle_create_record in rw (e, e') (record { valid = v; views = refl }))
    ]
    | inr (p, e) ↦ rw e (unfold handle_create_record in rw e (record { valid = v; views = refl }))
  ]
  run-Stands update message w v = elim (Result-cases (decoder.update_request message.body)) [
    | inl (request, e) ↦ elim (Result-cases (request_record request)) [
      | inl (r, e') ↦
          let m = impl.update r w.store tt v in
          rw (e, e', store-update message w e e')
            (record { valid = m.valid_after; views = m.view_after })
      | inr (p, e') ↦
          rw (e, e')
            (unfold handle_update_record in rw (e, e') (record { valid = v; views = refl }))
    ]
    | inr (p, e) ↦ rw e (unfold handle_update_record in rw e (record { valid = v; views = refl }))
  ]
  run-Stands delete message w v = elim (Result-cases (decoder.delete_request message.body)) [
    | inl (request, e) ↦
        let m = impl.delete (request_query request) w.store tt v in
        rw (e, store-delete message w e) (record { valid = m.valid_after; views = m.view_after })
    | inr (p, e) ↦ rw e (unfold handle_delete_record in rw e (record { valid = v; views = refl }))
  ]
  run-Stands read message w v = elim (Result-cases (decoder.read_request message.body)) [
    | inl (request, e) ↦
        let m = impl.read (request_query request) w.store tt v in
        rw (store-read message w e) (record { valid = m.valid_after; views = m.view_after })
    | inr (p, e) ↦ unfold handle_read_record in rw e (record { valid = v; views = refl })
  ]
  run-Stands list message w v =
      let m = impl.list w.store v in
      rw (store-list w) (record { valid = m.valid_after; views = m.view_after })
  run-Stands unknown message w v = record { valid = v; views = refl }

  unknown-Stands :
      (ctx : HandlerContext) (message : Message) (w : World S)
      → IsValid w.store
      → Stands
          (view w.store)
          (handle_request_of sdk profile decoder repo admin_dids unknown ctx message w).store
  unfolding handle_request_of
  unknown-Stands ctx message w v =
      let s =
        send_problem_report-Sends sdk profile
          (ProblemReport.bad_request ("Unknown message type: " <> message.type_)) ctx.sender_did
          ctx.thid ctx.pthid w in
      rw s.store (record { valid = v; views = refl })

  -- After any administration message, valid or not, whatever the SDK answers, the store is valid,
  -- and it stands for the registry that the message means if its sender is an administrator: the
  -- result of the registry's create, update or delete for a request of that kind whose body can be
  -- read, and the same registry for every other request. For any other sender the registry is the
  -- same.
  pub handle-Stands :
      (ctx : HandlerContext) (message : Message) (w : World S)
      → IsValid w.store
      → Stands
          (if contains admin_dids ctx.sender_did
            then meaning decoder (request_of message.type_) message (view w.store)
            else view w.store)
          (handle sdk profile decoder repo admin_dids ctx message w).1.store
  handle-Stands ctx message w v = elim (Bool-cases (contains admin_dids ctx.sender_did)) [
    | inl admin ↦ rw admin (elim (unknown-cases (request_of message.type_)) [
      | inl odd ↦ unfold handle in rw (admin, handle, odd) (unknown-Stands ctx message w v)
      | inr known ↦
          let answered =
            handle-Answered sdk profile decoder repo admin_dids ctx message w admin known in
          rw answered.concluded.store (run-Stands (request_of message.type_) message w v)
    ])
    | inr other ↦
        let c = handle_rejected sdk profile decoder repo admin_dids ctx message w other in
        rw (other, c.store) (record { valid = v; views = refl })
  ]
