-- ===== src/Didcomm/Listener/Requests.antt =====
-- What one request of the listener does, by the mediator's answer.
use mathlib.Core.List.{append-nil, append_assoc}
use affinidi_trust_registry.Didcomm.World.{Profile}
use affinidi_trust_registry.Didcomm.Listener.{
  Packet, Mediator, Inbox, spawn_handler, message_wait_duration_secs, messages_limit, ids,
  packets_of, spawn_handlers, set_public_acls_mode, process_next_message, request_status,
  fetch_messages, acknowledge, access_list_mode,
}
use affinidi_trust_registry.Prelude.{
  ℕ, String, ◌<>◌, Bool, true, false, ◌≡◌, refl, sym, ap, ◌∙◌, List, [], ◌∷◌, ◌++◌, Option, none,
  some, Result, ok, err, unwrap_or, inl, inr, Result-cases, ok-not_err,
}

module _ {M Meta : Type 0} where
  spawn_handlers_lem :
      (packets : List (Packet Meta)) (w : Inbox M Meta)
      → spawn_handlers packets w ≡ (ok tt, record w { started = w.started ++ packets })
  unfolding spawn_handler
  spawn_handlers_lem [] w = rw (append-nil w.started) refl
  spawn_handlers_lem (packet ∷ packets) w =
      rw (sym (append_assoc w.started (packet ∷ []) packets))
        (spawn_handlers_lem packets (record w { started = w.started ++ packet ∷ [] }))

module _ {M Meta AclSet : Type 0} (mediator : Mediator M Meta AclSet) (w : Inbox M Meta) where
  abbrev pub streamed : Result (Option (Packet Meta)) String × M
  streamed = mediator.live_stream_next (some message_wait_duration_secs) true w.mediator

  abbrev pub status : Result (Option ℕ) String × M
  status = mediator.send_status_request true none w.mediator

  abbrev pub delivery : Result (List (Packet Meta)) String × M
  delivery = mediator.send_delivery_request (some messages_limit) true w.mediator

  abbrev pub message_count : Result (Option ℕ) String → Result ℕ String
  message_count (ok n) = ok (unwrap_or n 0)
  message_count (err e) = err e

  -- The inbox after the mediator has handed out some messages
  abbrev pub handed_out : List (Packet Meta) → M → Inbox M Meta
  handed_out packets m = record w {
    mediator = m;
    delivered = w.delivered ++ packets;
    started = w.started ++ packets;
  }

  -- The inbox after the stream has handed out some messages, which are deleted
  abbrev pub taken : List (Packet Meta) → M → Inbox M Meta
  taken packets m = record w {
    mediator = m;
    delivered = w.delivered ++ packets;
    started = w.started ++ packets;
    acknowledged = w.acknowledged ++ ids packets;
  }

  pub process_next_message-ok :
      {packet : Option (Packet Meta)}
      → streamed.0 ≡ ok packet
      → process_next_message mediator w ≡ (ok tt, taken (packets_of packet) streamed.1)
  unfolding process_next_message
  process_next_message-ok {packet} e = rw e (spawn_handlers_lem (packets_of packet) _)

  pub process_next_message-err :
      {problem : String}
      → streamed.0 ≡ err problem
      → process_next_message mediator w ≡ (err problem, record w { mediator = streamed.1 })
  unfolding process_next_message
  process_next_message-err e = rw e refl

  pub request_status_lem :
      request_status mediator w ≡ (message_count status.0, record w { mediator = status.1 })
  unfolding request_status
  request_status_lem = elim (Result-cases status.0) [
    | inl (n, e) ↦ rw e refl
    | inr (problem, e) ↦ rw e refl
  ]

  pub fetch_messages-ok :
      {packets : List (Packet Meta)}
      → delivery.0 ≡ ok packets
      → fetch_messages mediator w ≡ (ok (ids packets), handed_out packets delivery.1)
  unfolding fetch_messages
  fetch_messages-ok {packets} e = rw (e, spawn_handlers_lem packets) refl

  pub fetch_messages-err :
      {problem : String}
      → delivery.0 ≡ err problem
      → fetch_messages mediator w ≡ (err problem, record w { mediator = delivery.1 })
  unfolding fetch_messages
  fetch_messages-err e = rw e refl

module _ {M Meta AclSet : Type 0} (mediator : Mediator M Meta AclSet) where
  abbrev pub receipt : List String → Inbox M Meta → Result (Option ℕ) String × M
  receipt messages w = mediator.send_messages_received messages true w.mediator

  abbrev pub done : Result (Option ℕ) String → Result (Unit {0}) String
  done (ok n) = ok tt
  done (err e) = err e

  pub acknowledge_lem :
      (messages : List String) (w : Inbox M Meta)
      → acknowledge mediator messages w ≡ (
        done (receipt messages w).0,
        record w { mediator = (receipt messages w).1; acknowledged = w.acknowledged ++ messages },
      )
  unfolding acknowledge
  acknowledge_lem messages w = elim (Result-cases (receipt messages w).0) [
    | inl (n, e) ↦ rw e refl
    | inr (problem, e) ↦ rw e refl
  ]

  -- The account was found, its access list has the mode with the other flags as they were computed,
  -- and the mediator stored it for the digest of the DID.
  pub record ModeSet (profile : Profile) (is_only_admin : Bool) (w w' : Inbox M Meta) : Type 0 where
    pub account_acls : ℕ
    pub acls : AclSet
    pub m1 : M
    pub m2 : M
    pub found : mediator.account_get w.mediator ≡ (ok (some account_acls), m1)
    pub changed :
        mediator.set_access_list_mode
          (access_list_mode is_only_admin)
          true
          false
          (mediator.from_u64 account_acls)
        ≡ ok acls
    pub stored : mediator.acls_set (mediator.digest profile.did) acls m1 ≡ (ok tt, m2)
    pub after : record w { mediator = m2 } ≡ w'

  -- If setting the access list mode succeeds, then the mediator knows the account of the service,
  -- and it was told, as the last request, to store for the digest of the service's DID the access
  -- list of that account in the mode `ExplicitAllow` for an administrators-only service and
  -- `ExplicitDeny` for any other.
  pub set_public_acls_mode-ok :
      (profile : Profile) (is_only_admin : Bool) (w : Inbox M Meta) {w' : Inbox M Meta}
      → set_public_acls_mode mediator profile is_only_admin w ≡ (ok tt, w')
      → ModeSet profile is_only_admin w w'
  unfolding set_public_acls_mode
  set_public_acls_mode-ok profile is_only_admin w {w'} h =
      let found = mediator.account_get w.mediator in
      elim (Result-cases found.0) [
        | inr (problem, e) ↦ absurd (ok-not_err problem (ap (λ p. p.0) h) (rw e refl))
        | inl (none, e) ↦ absurd (
            ok-not_err ("[profile = " <> (profile.alias <> "] Failed to get account info"))
              (ap (λ p. p.0) h) (rw e refl))
        | inl (some account_acls, e) ↦
            let acls =
              mediator.set_access_list_mode (access_list_mode is_only_admin) true false
                (mediator.from_u64 account_acls) in
            elim (Result-cases acls) [
              | inr (problem, f) ↦ absurd (ok-not_err problem (ap (λ p. p.0) h) (rw (e, f) refl))
              | inl (changed, f) ↦
                  let stored = mediator.acls_set (mediator.digest profile.did) changed found.1 in
                  let run : set_public_acls_mode mediator profile is_only_admin w
                      ≡ (stored.0, record w { mediator = stored.1 }) =
                    rw (e, f) refl in
                  record {
                    account_acls = account_acls;
                    acls = changed;
                    m1 = found.1;
                    m2 = stored.1;
                    found = ap (λ r. (r, found.1)) e;
                    changed = f;
                    stored = ap (λ r. (r, stored.1)) (sym (ap (λ p. p.0) run) ∙ ap (λ p. p.0) h);
                    after = sym (ap (λ p. p.1) run) ∙ ap (λ p. p.1) h;
                  }
            ]
      ]
