-- ===== src/Tests/Listening.antt =====
-- A mediator that is a queue, and the listener with it.
use mathlib.Core.List.Perm
use affinidi_trust_registry.Storage.Local.{local_repository, LocalStorage}
use affinidi_trust_registry.Storage.Local.Refines as Local
use affinidi_trust_registry.Storage.Local.Refines.{local_repository-Implements}
use affinidi_trust_registry.Didcomm.Message.{Message}
use affinidi_trust_registry.Didcomm.Handlers.{build, handle}
use affinidi_trust_registry.Didcomm.Listener.{
  Packet, Mediator, Inbox, AccessListModeType, explicit_allow, explicit_deny, sync_rounds,
  spawn_handler, set_public_acls_mode, process_next_message,
}
use affinidi_trust_registry.Didcomm.Listener.Queue.{take, without, Distinct, IsQueue}
use affinidi_trust_registry.Didcomm.Listener.Queue.Drains.{sync_rounds-drain}
use affinidi_trust_registry.Didcomm.Listener.Running.{
  asleep, Listening, empty_inbox, turn, sync, sync_step, Reach, here, next, Listens,
}
use affinidi_trust_registry.Didcomm.Listener.Running.Handled.{Has, Handled, Listens-Handled}
use affinidi_trust_registry.Didcomm.Listener.Running.Kept.{IsAmong, Keeps, Kept, Reach-Kept}
use affinidi_trust_registry.Didcomm.Serving as Serving
use affinidi_trust_registry.Didcomm.Serving.{
  Serving, ServeStep, listen, finish, Serves, Served, Serves-Served,
}
use affinidi_trust_registry.Tests.Fixtures.{
  storage, stored-IsValidMap, sdk, profile, decoder, codec, admin, create_licence, world,
}
use affinidi_trust_registry.Prelude.{
  ℕ, String, ◌≡◌, ◌⊎◌, inl, inr, refl, sym, subst, true, Option, none, some, List, [], ◌∷◌, length,
  Result, ok, contains, string_eq, String-discrete, arith, Bool-cases,
}

abbrev Queued : Type 0
Queued = List (Packet (Unit {0}))

abbrev next_of : Queued → Result (Option (Packet (Unit {0}))) String × Queued
next_of [] = (ok none, [])
next_of (packet ∷ packets) = (ok (some packet), packets)

abbrev up_to : Option ℕ → Queued → Queued
up_to none m = m
up_to (some limit) m = take limit m

abbrev mode_flag : AccessListModeType → ℕ
mode_flag explicit_allow = 1
mode_flag explicit_deny = 0

abbrev queue_mediator : Mediator Queued (Unit {0}) ℕ
queue_mediator = record {
  from_u64 = λ n. n;
  set_access_list_mode = λ mode self_change admin acls. ok (mode_flag mode);
  digest = λ did. did;
  account_get = λ m. (ok (some 7), m);
  acls_set = λ did acls m. (ok tt, m);
  live_stream_next = λ wait auto_delete m. next_of m;
  send_status_request = λ wait_for wait m. (ok (some (length m)), m);
  send_delivery_request = λ limit wait_for m. (ok (up_to limit m), m);
  send_messages_received = λ messages wait_for m. (ok (some 0), without messages m);
}

abbrev same_queue : Queued → Queued
same_queue m = m

queue_mediator-IsQueue : IsQueue same_queue queue_mediator
queue_mediator-IsQueue = record {
  counts = λ m. refl;
  counts_only = λ m. refl;
  delivers = λ limit m. refl;
  delivers_only = λ limit m. refl;
  deletes = λ messages m. refl;
}

contains-IsAmong : (l : List String) (id : String) → contains l id ≡ true → IsAmong id l
contains-IsAmong [] id h = absurd (let x : ⊥ = cc in x)
contains-IsAmong (x ∷ l) id h = elim (String-discrete x id) [
  | yes e ↦ inl e
  | no n ↦ inr (contains-IsAmong l id (ground arith))
]

without-Has :
    (messages : List String) (m : Queued) (id : String)
    → Has m id
    → Has (without messages m) id ⊎ IsAmong id messages
without-Has messages [] id h = absurd h
without-Has messages (x ∷ m) id h = elim (Bool-cases (contains messages x.0.id)) [
  | inl deleted ↦ rw deleted (elim h [
    | inl e ↦ inr (contains-IsAmong messages id (rw (sym e) deleted))
    | inr later ↦ without-Has messages m id later
  ])
  | inr kept ↦ rw kept (elim h [
    | inl e ↦ inl (inl e)
    | inr later ↦ elim (without-Has messages m id later) [
      | inl still ↦ inl (inr still)
      | inr named ↦ inr named
    ]
  ])
]

abbrev Waits : Queued → String → Type 0
Waits m id = Has m id

next_of-Has :
    (m : Queued) (id : String)
    → Has m id
    → Has (next_of m).1 id
      ⊎ ((packet : Packet (Unit {0})) × ((next_of m).0 ≡ ok (some packet)) × (packet.0.id ≡ id))
next_of-Has [] id h = absurd h
next_of-Has (x ∷ m) id (inl e) = inr (x, refl, e)
next_of-Has (x ∷ m) id (inr later) = inl later

queue_mediator-Keeps : Keeps Waits queue_mediator
queue_mediator-Keeps = record {
  counting = λ m id h. h;
  delivering = λ m id h. h;
  receiving = λ messages m id h. without-Has messages m id h;
  streaming = λ m id h. next_of-Has m id h;
}

abbrev second : Message
second = record create_licence { id = "message-2" }

abbrev two : Queued
two = (create_licence, tt) ∷ (second, tt) ∷ []

abbrev inbox : Inbox Queued (Unit {0})
inbox = empty_inbox two

two-Distinct : Distinct two
unfolding String-discrete
two-Distinct = (refl, (refl, tt))

sync_rounds-drain_example :
    ((sync_rounds queue_mediator 1 inbox).mediator ≡ [])
    × ((sync_rounds queue_mediator 1 inbox).started ≡ two)
sync_rounds-drain_example =
    sync_rounds-drain queue_mediator same_queue queue_mediator-IsQueue 1 inbox two-Distinct
      (omega arith)

set_mode : set_public_acls_mode queue_mediator profile true inbox ≡ (ok tt, inbox)
unfolding set_public_acls_mode
set_mode = refl

abbrev Only : Queued → Queued → Type 0
Only m m' = m ≡ m'

abbrev idle : Listening Queued (Unit {0})
idle = record { inbox = inbox; sync_task = asleep }

-- The periodic task has counted, then the loop takes the first message.
abbrev counted_idle : Listening Queued (Unit {0})
counted_idle = sync_step queue_mediator inbox asleep

abbrev one_started : Listening Queued (Unit {0})
one_started = record counted_idle {
  inbox = (process_next_message queue_mediator counted_idle.inbox).1;
}

one_started-Reach : Reach queue_mediator Only idle one_started
one_started-Reach = next (next here (sync refl)) (turn refl)

one_started-Listens : Listens queue_mediator profile true Only two one_started
one_started-Listens = record { w = inbox; allowed = set_mode; reached = one_started-Reach }

Listens-Handled_example : Handled one_started
Listens-Handled_example =
    Listens-Handled queue_mediator Only profile true two one_started one_started-Listens

idle-Handled : Handled idle
idle-Handled = record { started = refl; acknowledged = tt; deleting = tt }

Only-keeps : (m m' : Queued) (id : String) → Only m m' → Waits m id → Waits m' id
Only-keeps m m' id e h = subst (λ l. Has l id) e h

Reach-Kept_example : Kept Waits one_started.inbox "message-2"
Reach-Kept_example =
    Reach-Kept Waits queue_mediator queue_mediator-Keeps Only Only-keeps idle one_started
      "message-2" idle-Handled (inr (inl refl)) one_started-Reach

abbrev admins : List String
admins = admin ∷ []

abbrev ready : Serving Queued (Unit {0}) LocalStorage
ready = record { listening = idle; unfinished = []; finished = []; world = world }

abbrev started_one : Listening Queued (Unit {0})
started_one = record idle { inbox = (process_next_message queue_mediator inbox).1 }

abbrev running : Serving Queued (Unit {0}) LocalStorage
running = record ready { listening = started_one; unfinished = (create_licence, tt) ∷ [] }

abbrev ended : Serving Queued (Unit {0}) LocalStorage
ended = record running {
  unfinished = [];
  finished = (create_licence, tt) ∷ [];
  world = (handle (build sdk profile decoder codec local_repository admins) create_licence world).1;
}

ended-Serves :
    Serves queue_mediator Only sdk profile decoder codec local_repository admins ready ended
unfolding process_next_message spawn_handler
ended-Serves =
    Serving.next
      (Serving.next Serving.here
        (listen started_one ((create_licence, tt) ∷ []) (turn refl) refl refl))
      (finish [] [] (create_licence, tt) refl refl)

ready-Served :
    Served {IsValid = Local.IsValid} {view = Local.view} sdk profile decoder codec local_repository
      admins local_repository-Implements
      (Local.view storage)
      ready
ready-Served = record {
  stands = record { valid = stored-IsValidMap; views = refl };
  tasks = Perm.refl [];
}

Serves-Served_example :
    Served {IsValid = Local.IsValid} {view = Local.view} sdk profile decoder codec local_repository
      admins local_repository-Implements
      (Local.view storage)
      ended
Serves-Served_example =
    Serves-Served {IsValid = Local.IsValid} {view = Local.view} sdk profile decoder codec
      local_repository admins local_repository-Implements queue_mediator Only (Local.view storage)
      ended-Serves ready-Served
