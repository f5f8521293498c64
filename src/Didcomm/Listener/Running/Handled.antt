-- ===== src/Didcomm/Listener/Running/Handled.antt =====
-- What holds of the listener's messages whenever it runs.
use affinidi_trust_registry.Didcomm.World.{Profile}
use affinidi_trust_registry.Didcomm.Listener.{
  Packet, Mediator, message_wait_duration_secs, messages_limit, Inbox, ids, packets_of,
  process_next_message,
}
use affinidi_trust_registry.Didcomm.Listener.Running.{
  SyncTask, asleep, counted, fetched, Listening, empty_inbox, after_status, sync_step, Step, turn,
  sync, change, Reach, here, next, Listens,
}
use affinidi_trust_registry.Didcomm.Listener.Requests.{
  process_next_message-ok, process_next_message-err, request_status_lem, message_count, status,
  set_public_acls_mode-ok, fetch_messages-ok, fetch_messages-err, acknowledge_lem,
}
use affinidi_trust_registry.Prelude.{
  ℕ, String, Bool, ◌≡◌, ◌⊎◌, inl, inr, refl, List, [], ◌∷◌, ◌++◌, Result, ok, err, Result-cases,
  arith, All, ap, sym, true, subst, some,
}

-- A packet whose message has the id
abbrev pub Has : {Meta : Type 0} → List (Packet Meta) → String → Type 0
Has [] id = ⊥
Has (packet ∷ packets) id = (packet.0.id ≡ id) ⊎ Has packets id

abbrev pub deletes : SyncTask → List String
deletes (fetched messages_to_delete) = messages_to_delete
deletes _ = []

module _ {Meta : Type 0} where
  pub Has-append_left : (xs ys : List (Packet Meta)) (id : String) → Has xs id → Has (xs ++ ys) id
  Has-append_left [] ys id h = absurd h
  Has-append_left (x ∷ xs) ys id (inl e) = inl e
  Has-append_left (x ∷ xs) ys id (inr h) = inr (Has-append_left xs ys id h)

  pub Has-append_right : (xs ys : List (Packet Meta)) (id : String) → Has ys id → Has (xs ++ ys) id
  Has-append_right [] ys id h = h
  Has-append_right (x ∷ xs) ys id h = inr (Has-append_right xs ys id h)

  abbrev AllHas : List (Packet Meta) → List String → Type 0
  AllHas packets = All (Has packets)

  AllHas-more : (xs ys : List (Packet Meta)) (l : List String) → AllHas xs l → AllHas (xs ++ ys) l
  AllHas-more xs ys [] h = tt
  AllHas-more xs ys (id ∷ l) h = (Has-append_left xs ys id h.0, AllHas-more xs ys l h.1)

  AllHas-append :
      (xs : List (Packet Meta)) (l m : List String) → AllHas xs l → AllHas xs m → AllHas xs (l ++ m)
  AllHas-append xs [] m h k = k
  AllHas-append xs (id ∷ l) m h k = (h.0, AllHas-append xs l m h.1 k)

  AllHas-prepend :
      (xs ys : List (Packet Meta)) (l : List String) → AllHas ys l → AllHas (xs ++ ys) l
  AllHas-prepend xs ys [] h = tt
  AllHas-prepend xs ys (id ∷ l) h = (Has-append_right xs ys id h.0, AllHas-prepend xs ys l h.1)

  ids-later :
      (x : Packet Meta) (xs : List (Packet Meta)) (l : List String)
      → AllHas xs l
      → AllHas (x ∷ xs) l
  ids-later x xs [] h = tt
  ids-later x xs (id ∷ l) h = (inr h.0, ids-later x xs l h.1)

  ids-AllHas : (xs : List (Packet Meta)) → AllHas xs (ids xs)
  ids-AllHas [] = tt
  ids-AllHas (x ∷ xs) = (inl refl, ids-later x xs (ids xs) (ids-AllHas xs))

  -- Every message that the mediator handed out was started, in order and once, and every id that it
  -- was or will be told to delete is the id of a message that was started.
  pub record Handled {M : Type 0} (s : Listening M Meta) : Type 0 where
    pub started : s.inbox.started ≡ s.inbox.delivered
    pub acknowledged : All (Has s.inbox.started) s.inbox.acknowledged
    pub deleting : All (Has s.inbox.started) (deletes s.sync_task)

module _ {M Meta AclSet : Type 0} (mediator : Mediator M Meta AclSet) where
  -- What was delivered in a step and started with it keeps the invariant.
  batch-Handled :
      (s : Listening M Meta) (packets : List (Packet Meta)) (m : M) (task : SyncTask)
      (deleted : List String)
      → AllHas (s.inbox.started ++ packets) deleted
      → AllHas (s.inbox.started ++ packets) (deletes task)
      → Handled s
      → Handled (record {
        inbox = record s.inbox {
          mediator = m;
          delivered = s.inbox.delivered ++ packets;
          started = s.inbox.started ++ packets;
          acknowledged = s.inbox.acknowledged ++ deleted;
        };
        sync_task = task;
      })
  batch-Handled s packets m task deleted k h v = record {
    started = ap (λ l. l ++ packets) v.started;
    acknowledged =
        AllHas-append (s.inbox.started ++ packets) s.inbox.acknowledged deleted
          (AllHas-more s.inbox.started packets s.inbox.acknowledged v.acknowledged) k;
    deleting = h;
  }

  -- As before, without a deletion
  fetched-Handled :
      (s : Listening M Meta) (packets : List (Packet Meta)) (m : M)
      → AllHas (s.inbox.started ++ packets) (ids packets)
      → Handled s
      → Handled (record {
        inbox = record s.inbox {
          mediator = m;
          delivered = s.inbox.delivered ++ packets;
          started = s.inbox.started ++ packets;
        };
        sync_task = fetched (ids packets);
      })
  fetched-Handled s packets m h v = record {
    started = ap (λ l. l ++ packets) v.started;
    acknowledged = AllHas-more s.inbox.started packets s.inbox.acknowledged v.acknowledged;
    deleting = h;
  }

  turn-Handled :
      (s : Listening M Meta)
      → Handled s
      → Handled (record s { inbox = (process_next_message mediator s.inbox).1 })
  turn-Handled s v =
      let stream =
        mediator.live_stream_next (some message_wait_duration_secs) true s.inbox.mediator in
      elim (Result-cases stream.0) [
        | inl (packet, e) ↦ rw (process_next_message-ok mediator s.inbox e) (
            batch-Handled s (packets_of packet) stream.1 s.sync_task (ids (packets_of packet))
              (AllHas-prepend s.inbox.started (packets_of packet) (ids (packets_of packet))
                (ids-AllHas (packets_of packet)))
              (AllHas-more s.inbox.started (packets_of packet) (deletes s.sync_task) v.deleting) v)
        | inr (problem, e) ↦
            rw (process_next_message-err mediator s.inbox e)
              (record { started = v.started; acknowledged = v.acknowledged; deleting = v.deleting })
      ]

  after_status-deletes : (r : Result ℕ String) → deletes (after_status mediator r) ≡ []
  after_status-deletes (ok n) = ground arith
  after_status-deletes (err e) = refl

  fetch-Handled : (s : Listening M Meta) → Handled s → Handled (sync_step mediator s.inbox counted)
  fetch-Handled s v =
      let delivery = mediator.send_delivery_request (some messages_limit) true s.inbox.mediator in
      elim (Result-cases delivery.0) [
        | inl (packets, e) ↦ rw (fetch_messages-ok mediator s.inbox e) (
            fetched-Handled s packets delivery.1
              (AllHas-prepend s.inbox.started packets (ids packets) (ids-AllHas packets)) v)
        | inr (problem, e) ↦
            rw (fetch_messages-err mediator s.inbox e)
              (record { started = v.started; acknowledged = v.acknowledged; deleting = tt })
      ]

  sync_step-Handled :
      (w : Inbox M Meta) (task : SyncTask)
      → Handled (record { inbox = w; sync_task = task })
      → Handled (sync_step mediator w task)
  sync_step-Handled w asleep v = rw (request_status_lem mediator w) (record {
    started = v.started;
    acknowledged = v.acknowledged;
    deleting =
        subst (All (Has w.started))
          (sym (after_status-deletes (message_count mediator w (status mediator w).0))) tt;
  })
  sync_step-Handled w counted v = fetch-Handled (record { inbox = w; sync_task = counted }) v
  sync_step-Handled w (fetched messages) v = rw (acknowledge_lem mediator messages w) (record {
    started = v.started;
    acknowledged = AllHas-append w.started w.acknowledged messages v.acknowledged v.deleting;
    deleting = tt;
  })

  module _ (Changes : M → M → Type 0) where
    pub Step-Handled : {s t : Listening M Meta} → Step mediator Changes s t → Handled s → Handled t
    Step-Handled {s} (turn e) v = subst Handled (sym e) (turn-Handled s v)
    Step-Handled {s} (sync e) v = subst Handled (sym e) (sync_step-Handled s.inbox s.sync_task v)
    Step-Handled (change m c e) v =
        subst Handled (sym e)
          (record { started = v.started; acknowledged = v.acknowledged; deleting = v.deleting })

    pub Reach-Handled :
        {s t : Listening M Meta} → Handled s → Reach mediator Changes s t → Handled t
    Reach-Handled v here = v
    Reach-Handled v (next r step) = Step-Handled step (Reach-Handled v r)

    -- Whenever the listener runs, at any point of its loop and of the periodic task and whatever the
    -- mediator answers and becomes in between, every message that the mediator handed out was given
    -- to a handler, once and in that order, and every message that the mediator was told to delete,
    -- by a receipt or by the stream that handed it out, or is next told to delete by a receipt, is one
    -- that was given to a handler; a message of the stream is so in the turn that has it deleted.
    pub Listens-Handled :
        (profile : Profile) (is_only_admin : Bool) (m : M) (t : Listening M Meta)
        → Listens mediator profile is_only_admin Changes m t
        → Handled t
    Listens-Handled profile is_only_admin m t l =
        Reach-Handled
          (subst (λ w. Handled (record { inbox = w; sync_task = asleep }))
            (set_public_acls_mode-ok mediator profile is_only_admin (empty_inbox m) l.allowed).after
            (record { started = refl; acknowledged = tt; deleting = tt }))
          l.reached
