-- ===== src/Didcomm/Listener/Running/Kept.antt =====
-- No message is lost between the mediator's queue and the handlers.
use affinidi_trust_registry.Didcomm.Listener.{
  Packet, Mediator, Inbox, message_wait_duration_secs, messages_limit, packets_of,
  process_next_message,
}
use affinidi_trust_registry.Didcomm.Listener.Requests.{
  streamed, taken, delivery, status, process_next_message-ok, process_next_message-err,
  request_status_lem, fetch_messages-ok, fetch_messages-err, acknowledge_lem,
}
use affinidi_trust_registry.Didcomm.Listener.Running.{
  SyncTask, asleep, counted, fetched, Listening, sync_step, Step, turn, sync, change, Reach, here,
  next,
}
use affinidi_trust_registry.Didcomm.Listener.Running.Handled.{
  Has, Has-append_left, Has-append_right, Handled, Reach-Handled,
}
use affinidi_trust_registry.Prelude.{
  String, ◌≡◌, ◌⊎◌, inl, inr, sym, subst, true, List, [], ◌∷◌, All, Option, none, some, ok,
  Result-cases, ok-not_err,
}

-- The id is one of those in the list.
abbrev pub IsAmong : String → List String → Type 0
IsAmong id [] = ⊥
IsAmong id (x ∷ xs) = (x ≡ id) ⊎ IsAmong id xs

-- What each request may take from the queue: counting and delivering nothing, the stream the one
-- message that it hands out, and a receipt the messages that it names.
pub record Keeps {M Meta AclSet : Type 0} (Waits : M → String → Type 0)
    (mediator : Mediator M Meta AclSet) : Type 0 where
  pub counting :
      (m : M) (id : String) → Waits m id → Waits (mediator.send_status_request true none m).1 id
  pub delivering :
      (m : M) (id : String)
      → Waits m id
      → Waits (mediator.send_delivery_request (some messages_limit) true m).1 id
  pub receiving :
      (messages : List String) (m : M) (id : String)
      → Waits m id
      → Waits (mediator.send_messages_received messages true m).1 id ⊎ IsAmong id messages
  pub streaming :
      (m : M) (id : String)
      → Waits m id
      → Waits (mediator.live_stream_next (some message_wait_duration_secs) true m).1 id
        ⊎ ((packet : Packet Meta) × ((mediator.live_stream_next
                (some message_wait_duration_secs)
                true
                m).0
              ≡ ok (some packet))
            × (packet.0.id ≡ id))

module _ (P : String → Type 0) where
  All-at : (l : List String) (id : String) → All P l → IsAmong id l → P id
  All-at [] id h m = absurd m
  All-at (x ∷ l) id h (inl e) = subst P e h.0
  All-at (x ∷ l) id h (inr m) = All-at l id h.1 m

module _ {M Meta : Type 0} (Waits : M → String → Type 0) where
  -- The message waits at the mediator, or was given to a handler.
  abbrev pub Kept : Inbox M Meta → String → Type 0
  Kept w id = Waits w.mediator id ⊎ Has w.started id

  -- A request that takes nothing from the queue
  untaken-Kept :
      (w : Inbox M Meta) (m : M) (id : String)
      → (Waits w.mediator id → Waits m id)
      → Kept w id
      → Kept (record w { mediator = m }) id
  untaken-Kept w m id f (inl h) = inl (f h)
  untaken-Kept w m id f (inr h) = inr h

  module _ {AclSet : Type 0} (mediator : Mediator M Meta AclSet) (keeps : Keeps Waits mediator)
      (Changes : M → M → Type 0)
      (still : (m m' : M) (id : String) → Changes m m' → Waits m id → Waits m' id) where
    streamed-Kept :
        (w : Inbox M Meta) (packet : Option (Packet Meta)) (id : String)
        → (streamed mediator w).0 ≡ ok packet
        → Kept w id
        → Kept (taken mediator w (packets_of packet) (streamed mediator w).1) id
    streamed-Kept w packet id e (inr h) = inr (Has-append_left w.started (packets_of packet) id h)
    streamed-Kept w packet id e (inl h) = elim (keeps.streaming w.mediator id h) [
      | inl waits ↦ inl waits
      | inr (handed_over, f, same) ↦
          let handed : packet ≡ some handed_over = cc in
          inr (Has-append_right w.started (packets_of packet) id (rw handed (inl same)))
    ]

    turn-Kept :
        (w : Inbox M Meta) (id : String) → Kept w id → Kept (process_next_message mediator w).1 id
    turn-Kept w id h = elim (Result-cases (streamed mediator w).0) [
      | inl (packet, e) ↦ rw (process_next_message-ok mediator w e) (streamed-Kept w packet id e h)
      | inr (problem, e) ↦ rw (process_next_message-err mediator w e) (elim h [
        | inr begun ↦ inr begun
        | inl waits ↦ elim (keeps.streaming w.mediator id waits) [
          | inl waits ↦ inl waits
          | inr (handed_over, f, same) ↦ absurd (ok-not_err problem f e)
        ]
      ])
    ]

    fetch-Kept :
        (w : Inbox M Meta) (id : String) → Kept w id → Kept (sync_step mediator w counted).inbox id
    fetch-Kept w id h = elim (Result-cases (delivery mediator w).0) [
      | inr (problem, e) ↦
          rw (fetch_messages-err mediator w e)
            (untaken-Kept w (delivery mediator w).1 id (keeps.delivering w.mediator id) h)
      | inl (packets, e) ↦ rw (fetch_messages-ok mediator w e) (elim h [
        | inl waits ↦ inl (keeps.delivering w.mediator id waits)
        | inr begun ↦ inr (Has-append_left w.started packets id begun)
      ])
    ]

    sync_step-Kept :
        (w : Inbox M Meta) (task : SyncTask) (id : String)
        → Handled (record { inbox = w; sync_task = task })
        → Kept w id
        → Kept (sync_step mediator w task).inbox id
    sync_step-Kept w asleep id v h =
        rw (request_status_lem mediator w)
          (untaken-Kept w (status mediator w).1 id (keeps.counting w.mediator id) h)
    sync_step-Kept w counted id v h = fetch-Kept w id h
    sync_step-Kept w (fetched messages) id v (inr begun) =
        rw (acknowledge_lem mediator messages w) (inr begun)
    sync_step-Kept w (fetched messages) id v (inl waits) =
        rw (acknowledge_lem mediator messages w)
          (elim (keeps.receiving messages w.mediator id waits) [
            | inl still_waits ↦ inl still_waits
            | inr named ↦ inr (All-at (Has w.started) messages id v.deleting named)
          ])

    Step-Kept :
        {s t : Listening M Meta} (id : String)
        → Step mediator Changes s t
        → Handled s
        → Kept s.inbox id
        → Kept t.inbox id
    Step-Kept {s} id (turn e) v h = subst (λ t. Kept t.inbox id) (sym e) (turn-Kept s.inbox id h)
    Step-Kept {s} id (sync e) v h =
        subst (λ t. Kept t.inbox id) (sym e) (sync_step-Kept s.inbox s.sync_task id v h)
    Step-Kept {s} id (change m c e) v h =
        subst (λ t. Kept t.inbox id) (sym e)
          (untaken-Kept s.inbox m id (still s.inbox.mediator m id c) h)

    -- If counting and delivering take nothing from the mediator's queue, the stream takes only the
    -- message that it hands out, a receipt only the messages that it names, and the mediator drops
    -- none by itself, then from any point at which all handed-out messages were given to handlers, a
    -- message that waits is, at each later point of the loop and the periodic task, still waiting or
    -- was given to a handler, whichever requests fail in between.
    pub Reach-Kept :
        (s t : Listening M Meta) (id : String)
        → Handled s
        → Waits s.inbox.mediator id
        → Reach mediator Changes s t
        → Kept t.inbox id
    Reach-Kept s t id v waits r = go r
      where
        go : {t : Listening M Meta} → Reach mediator Changes s t → Kept t.inbox id
        go here = inl waits
        go (next r step) = Step-Kept id step (Reach-Handled mediator Changes v r) (go r)
