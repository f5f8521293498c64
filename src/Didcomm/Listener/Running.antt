-- ===== src/Didcomm/Listener/Running.antt =====
-- The listener at work (start_listening and spawn_periodic_offline_sync): the loop takes its turns
-- while the periodic task goes through its requests, and the mediator changes in between.
pub mod Handled
pub mod Kept
use affinidi_trust_registry.Didcomm.World.{Profile}
use affinidi_trust_registry.Didcomm.Listener.{
  Mediator, Inbox, set_public_acls_mode, process_next_message, request_status, fetch_messages,
  acknowledge, sync_and_process_offline_messages,
}
use affinidi_trust_registry.Prelude.{
  ℕ, String, Bool, ◌≡◌, ◌⊎◌, inl, inr, refl, List, [], Result, ok, err, Result-cases, arith,
  if◌then◌else◌, Bool-cases,
}
use affinidi_trust_registry.Prelude.Text.{nat_eq}

-- Where the periodic task is: asleep, or before its second or third request
pub data SyncTask : Type 0 where
  asleep counted : SyncTask
  fetched : (messages_to_delete : List String) → SyncTask

pub record Listening (M Meta : Type 0) : Type 0 where
  pub inbox : Inbox M Meta
  pub sync_task : SyncTask

abbrev pub empty_inbox : {M Meta : Type 0} → M → Inbox M Meta
empty_inbox m = record { mediator = m; delivered = []; started = []; acknowledged = [] }

module _ {M Meta AclSet : Type 0} (mediator : Mediator M Meta AclSet) where
  abbrev pub after_status : Result ℕ String → SyncTask
  after_status (ok messages_count) = if nat_eq messages_count 0 then asleep else counted
  after_status (err e) = asleep

  abbrev pub after_fetch : Result (List String) String → SyncTask
  after_fetch (ok messages_to_delete) = fetched messages_to_delete
  after_fetch (err e) = asleep

  -- One request of the periodic task, up to the next `await`
  abbrev pub sync_step : Inbox M Meta → SyncTask → Listening M Meta
  sync_step w asleep =
      let (r, w') = request_status mediator w in record { inbox = w'; sync_task = after_status r }
  sync_step w counted =
      let (r, w') = fetch_messages mediator w in record { inbox = w'; sync_task = after_fetch r }
  sync_step w (fetched messages_to_delete) = record {
    inbox = (acknowledge mediator messages_to_delete w).1;
    sync_task = asleep;
  }

  -- A turn of the loop, a request of the periodic task, or a change of the mediator (`Changes`)
  pub data Step (Changes : M → M → Type 0) (s t : Listening M Meta) : Type 0 where
    turn : t ≡ record s { inbox = (process_next_message mediator s.inbox).1 } → Step Changes s t
    sync : t ≡ sync_step s.inbox s.sync_task → Step Changes s t
    change :
        (m : M)
        → Changes s.inbox.mediator m
        → t ≡ record s { inbox = record s.inbox { mediator = m } }
        → Step Changes s t

  pub data Reach (Changes : M → M → Type 0) (s : Listening M Meta) : Listening M Meta → Type 0 where
    here : Reach Changes s s
    next : {t u : Listening M Meta} → Reach Changes s t → Step Changes t u → Reach Changes s u

  -- What `start_listening` comes to: it listens only after it has set the access list mode.
  pub record Listens (profile : Profile) (is_only_admin : Bool) (Changes : M → M → Type 0) (m : M)
      (t : Listening M Meta) : Type 0 where
    pub w : Inbox M Meta
    pub allowed : set_public_acls_mode mediator profile is_only_admin (empty_inbox m) ≡ (ok tt, w)
    pub reached : Reach Changes (record { inbox = w; sync_task = asleep }) t
