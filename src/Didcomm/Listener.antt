-- ===== src/Didcomm/Listener.antt =====
-- trust-registry/src/didcomm/listener: how messages come from the mediator to the handlers. What the
-- mediator does is a parameter: each request has an answer and leaves the mediator in some state.
-- A handler runs in a task of its own, whose failure is only logged, so here it is only started.
pub mod Requests
pub mod Access
pub mod Queue
pub mod Running
use affinidi_trust_registry.Didcomm.Message.{Message}
use affinidi_trust_registry.Didcomm.World.{Profile}
use affinidi_trust_registry.Prelude.Text.{nat_eq}
use affinidi_trust_registry.Prelude.Effect.{Effect, pure, lift, ◌>>=◌, ◌>>◌}
use affinidi_trust_registry.Prelude.{
  ℕ, zero, suc, String, ◌<>◌, Bool, true, false, if◌then◌else◌, Option, none, some, unwrap_or, List,
  [], ◌∷◌, ◌++◌, map, Result, ok_or,
}

pub data AccessListModeType : Type 0 where
  explicit_allow explicit_deny : AccessListModeType

-- A message and its `UnpackMetadata`
abbrev pub Packet : Type 0 → Type 0
Packet Meta = Message × Meta

-- `MediatorACLSet` and its conversions, `digest`, and the requests. Of an account its `acls` are
-- read, of a status reply its `message_count`.
pub record Mediator (M Meta AclSet : Type 0) : Type 0 where
  pub from_u64 : ℕ → AclSet
  pub set_access_list_mode : AccessListModeType → Bool → Bool → AclSet → Result AclSet String
  pub digest : String → String
  pub account_get : Effect M String (Option ℕ)
  pub acls_set : String → AclSet → Effect M String (Unit {0})
  pub live_stream_next : (wait_secs : Option ℕ) → Bool → Effect M String (Option (Packet Meta))
  pub send_status_request : Bool → (wait_secs : Option ℕ) → Effect M String (Option ℕ)
  pub send_delivery_request : (limit : Option ℕ) → Bool → Effect M String (List (Packet Meta))
  pub send_messages_received : List String → Bool → Effect M String (Option ℕ)

-- `delivered` is all that the mediator handed out, `started` are the handler tasks, `acknowledged`
-- the ids that the mediator was told to delete, each in their order.
pub record Inbox (M Meta : Type 0) : Type 0 where
  pub mediator : M
  pub delivered : List (Packet Meta)
  pub started : List (Packet Meta)
  pub acknowledged : List String

abbrev pub message_wait_duration_secs : ℕ
message_wait_duration_secs = 5

abbrev pub messages_limit : ℕ
messages_limit = 100

abbrev pub access_list_mode : (is_only_admin : Bool) → AccessListModeType
access_list_mode is_only_admin = if is_only_admin then explicit_allow else explicit_deny

module _ {Meta : Type 0} where
  abbrev pub ids : List (Packet Meta) → List String
  ids = map (λ packet. packet.0.id)

  abbrev pub packets_of : Option (Packet Meta) → List (Packet Meta)
  packets_of none = []
  packets_of (some packet) = packet ∷ []

module _ {M Meta : Type 0} where
  -- A request to the mediator
  abbrev pub on_mediator : {A : Type 0} → Effect M String A → Effect (Inbox M Meta) String A
  on_mediator request w = let (r, m) = request w.mediator in (r, record w { mediator = m })

  -- A request whose answer hands out messages
  abbrev pub note_delivered : List (Packet Meta) → Effect (Inbox M Meta) String (Unit {0})
  note_delivered packets w = pure tt (record w { delivered = w.delivered ++ packets })

  unfoldable pub spawn_handler : Packet Meta → Effect (Inbox M Meta) String (Unit {0})
  spawn_handler packet w = pure tt (record w { started = w.started ++ packet ∷ [] })

  -- `for_each(|(message, meta)| self.spawn_handler(message, meta))`
  abbrev pub spawn_handlers : List (Packet Meta) → Effect (Inbox M Meta) String (Unit {0})
  spawn_handlers [] = pure tt
  spawn_handlers (packet ∷ packets) = spawn_handler packet >> spawn_handlers packets

  abbrev pub note_acknowledged : List String → Effect (Inbox M Meta) String (Unit {0})
  note_acknowledged messages w = pure tt (record w { acknowledged = w.acknowledged ++ messages })

module _ {M Meta AclSet : Type 0} (mediator : Mediator M Meta AclSet) where
  unfoldable pub set_public_acls_mode :
      Profile → (is_only_admin : Bool) → Effect (Inbox M Meta) String (Unit {0})
  set_public_acls_mode profile is_only_admin = do
    account_info ← on_mediator mediator.account_get
    account_acls ←
        lift
          (ok_or account_info ("[profile = " <> (profile.alias <> "] Failed to get account info")))
    acls ← lift (
        mediator.set_access_list_mode (access_list_mode is_only_admin) true false
          (mediator.from_u64 account_acls))
    on_mediator (mediator.acls_set (mediator.digest profile.did) acls)

  -- With `auto_delete` the stream itself has the message deleted that it hands out, so before its
  -- handler is started.
  unfoldable pub process_next_message : Effect (Inbox M Meta) String (Unit {0})
  process_next_message = do
    packet ← on_mediator (mediator.live_stream_next (some message_wait_duration_secs) true)
    note_delivered (packets_of packet)
    note_acknowledged (ids (packets_of packet))
    spawn_handlers (packets_of packet)

  -- How many messages wait, 0 where the mediator does not say
  unfoldable pub request_status : Effect (Inbox M Meta) String ℕ
  request_status = do
    status ← on_mediator (mediator.send_status_request true none)
    pure (unwrap_or status 0)

  -- Get the first messages, and start their handlers; the ids are those to delete.
  unfoldable pub fetch_messages : Effect (Inbox M Meta) String (List String)
  fetch_messages = do
    packets ← on_mediator (mediator.send_delivery_request (some messages_limit) true)
    note_delivered packets
    spawn_handlers packets
    pure (ids packets)

  unfoldable pub acknowledge : List String → Effect (Inbox M Meta) String (Unit {0})
  acknowledge messages_to_delete = do
    note_acknowledged messages_to_delete
    on_mediator (mediator.send_messages_received messages_to_delete true)
    pure tt

  unfoldable pub sync_and_process_offline_messages : Effect (Inbox M Meta) String (Unit {0})
  sync_and_process_offline_messages = do
    messages_count ← request_status
    if nat_eq messages_count 0
        then pure tt
        else do messages_to_delete ← fetch_messages; acknowledge messages_to_delete

  -- The rounds of `spawn_periodic_offline_sync`, whose failures are only logged
  unfoldable pub sync_rounds : ℕ → Inbox M Meta → Inbox M Meta
  sync_rounds zero w = w
  sync_rounds (suc n) w = sync_rounds n (sync_and_process_offline_messages w).1
