-- ===== src/Didcomm/Listener/Access.antt =====
-- Who may send messages to the service while it listens.
use affinidi_trust_registry.Didcomm.World.{Profile}
use affinidi_trust_registry.Didcomm.Listener.{
  Mediator, Inbox, AccessListModeType, explicit_allow, explicit_deny, message_wait_duration_secs,
  messages_limit, process_next_message,
}
use affinidi_trust_registry.Didcomm.Listener.Requests.{
  streamed, delivery, process_next_message-ok, process_next_message-err, request_status_lem,
  fetch_messages-ok, fetch_messages-err, acknowledge_lem, set_public_acls_mode-ok,
}
use affinidi_trust_registry.Didcomm.Listener.Running.{
  SyncTask, asleep, counted, fetched, Listening, empty_inbox, sync_step, Step, turn, sync, change,
  Reach, here, next, Listens,
}
use affinidi_trust_registry.Prelude.{
  String, ◌≡◌, refl, sym, ap, ◌∙◌, Bool, true, false, if◌then◌else◌, Option, none, some, List, ok,
  Result-cases, inl, inr, subst,
}

module _ {M Meta AclSet : Type 0} (mediator : Mediator M Meta AclSet)
    (Changes : M → M → Type 0) where
  -- The mode that the mediator holds for the digest of a DID: it is that of the last access list that
  -- was stored, and no other request changes it.
  pub record HoldsModes : Type 0 where
    pub mode_of : M → String → Option AccessListModeType
    pub stores :
        (mode : AccessListModeType) (acls changed : AclSet) (digest : String) (m m' : M)
        → mediator.set_access_list_mode mode true false acls ≡ ok changed
        → mediator.acls_set digest changed m ≡ (ok tt, m')
        → mode_of m' digest ≡ some mode
    pub streaming :
        (m : M) (digest : String)
        → mode_of (mediator.live_stream_next (some message_wait_duration_secs) true m).1 digest
          ≡ mode_of m digest
    pub counting :
        (m : M) (digest : String)
        → mode_of (mediator.send_status_request true none m).1 digest ≡ mode_of m digest
    pub delivering :
        (m : M) (digest : String)
        → mode_of (mediator.send_delivery_request (some messages_limit) true m).1 digest
          ≡ mode_of m digest
    pub receiving :
        (messages : List String) (m : M) (digest : String)
        → mode_of (mediator.send_messages_received messages true m).1 digest ≡ mode_of m digest
    pub changing :
        (m m' : M) (digest : String) → Changes m m' → mode_of m' digest ≡ mode_of m digest

  module _ (holds : HoldsModes) (digest : String) where
    abbrev Same : Inbox M Meta → Inbox M Meta → Type 0
    Same w w' = holds.mode_of w'.mediator digest ≡ holds.mode_of w.mediator digest

    turn-Same : (w : Inbox M Meta) → Same w (process_next_message mediator w).1
    turn-Same w = elim (Result-cases (streamed mediator w).0) [
      | inl (packet, e) ↦
          rw (process_next_message-ok mediator w e) (holds.streaming w.mediator digest)
      | inr (problem, e) ↦
          rw (process_next_message-err mediator w e) (holds.streaming w.mediator digest)
    ]

    sync_step-Same : (w : Inbox M Meta) (task : SyncTask) → Same w (sync_step mediator w task).inbox
    sync_step-Same w asleep = rw (request_status_lem mediator w) (holds.counting w.mediator digest)
    sync_step-Same w counted = elim (Result-cases (delivery mediator w).0) [
      | inl (packets, e) ↦ rw (fetch_messages-ok mediator w e) (holds.delivering w.mediator digest)
      | inr (problem, e) ↦ rw (fetch_messages-err mediator w e) (holds.delivering w.mediator digest)
    ]
    sync_step-Same w (fetched messages) =
        rw (acknowledge_lem mediator messages w) (holds.receiving messages w.mediator digest)

    Step-Same : {s t : Listening M Meta} → Step mediator Changes s t → Same s.inbox t.inbox
    Step-Same {s} (turn e) = subst (λ t. Same s.inbox t.inbox) (sym e) (turn-Same s.inbox)
    Step-Same {s} (sync e) =
        subst (λ t. Same s.inbox t.inbox) (sym e) (sync_step-Same s.inbox s.sync_task)
    Step-Same {s} (change m c e) =
        subst (λ t. Same s.inbox t.inbox) (sym e) (holds.changing s.inbox.mediator m digest c)

    Reach-Same : {s t : Listening M Meta} → Reach mediator Changes s t → Same s.inbox t.inbox
    Reach-Same here = refl
    Reach-Same (next r step) = Step-Same step ∙ Reach-Same r

  -- If the mediator holds for each DID the mode of the access list that was stored for it, and nothing
  -- else changes that, then at any point of the loop and of the periodic task the mode for the
  -- service is `ExplicitAllow` for an administrators-only service, and `ExplicitDeny` for any other.
  pub Listens-mode :
      (holds : HoldsModes) (profile : Profile) (is_only_admin : Bool) (m : M) (t : Listening M Meta)
      → Listens mediator profile is_only_admin Changes m t
      → holds.mode_of t.inbox.mediator (mediator.digest profile.did)
        ≡ some (if is_only_admin then explicit_allow else explicit_deny)
  Listens-mode holds profile is_only_admin m t l =
      let set = set_public_acls_mode-ok mediator profile is_only_admin (empty_inbox m) l.allowed in
      let digest = mediator.digest profile.did in
      Reach-Same holds digest l.reached
      ∙ (ap (λ w. holds.mode_of w.mediator digest) (sym set.after)
          ∙ holds.stores _ (mediator.from_u64 set.account_acls) set.acls digest set.m1 set.m2
              set.changed set.stored)
