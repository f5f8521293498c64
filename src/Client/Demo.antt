-- ===== src/Client/Demo.antt =====
-- test-client/src/main.rs: the demonstration that the client runs for the profile `Alice`. A failure
-- of an operation is printed and the next one follows; the pauses between them are left out. What
-- `unwrap` meets an error at is an error here.
use mathlib.Core.List.{append_assoc}
use affinidi_trust_registry.Json.{Value, str, object, array}
use affinidi_trust_registry.Didcomm.Message.{Message}
use affinidi_trust_registry.Didcomm.World.{Sdk, Profile, World, messages}
use affinidi_trust_registry.Didcomm.Transport.Traces.{pack_and_forward-Sends}
use affinidi_trust_registry.Didcomm.Listener.{Mediator, explicit_deny}
use affinidi_trust_registry.Client.{
  CommonCrudInput, create_record_type, update_record_type, delete_record_type, read_record_type,
  list_records_type, create_record, update_record, delete_record, read_record, list_records,
  admin_message, send_admin_message,
}
use affinidi_trust_registry.Prelude.Effect.{Effect, lift, ◌>>=◌}
use affinidi_trust_registry.Prelude.{
  String, ◌<>◌, true, false, some, List, [], ◌∷◌, ◌++◌, map, ok_or, ◌≡◌, refl, ap, ◌∙◌,
}

module _ {M Meta AclSet : Type 0} (mediator : Mediator M Meta AclSet) where
  -- `set_public_acls_mode` of the client: always open to all senders
  unfoldable pub set_public_acls_mode : Profile → Effect M String (Unit {0})
  set_public_acls_mode profile = do
    account_info ← mediator.account_get
    account_acls ←
        lift
          (ok_or account_info ("[profile = " <> (profile.alias <> "] Failed to get account info")))
    acls ←
        lift
          (mediator.set_access_list_mode explicit_deny true false (mediator.from_u64 account_acls))
    mediator.acls_set (mediator.digest profile.did) acls

abbrev demo_input : (trust_registry_did : String) → CommonCrudInput
demo_input trust_registry_did = record {
  trust_registry_did = trust_registry_did;
  entity_id = "did:example:entity123";
  authority_id = "did:example:authority456";
  action = "action_xyz";
  resource = "resource_abc";
}

abbrev created_context : Value
created_context = object (
    ("description", str "Test credential type")
    ∷ ("version", str "1.0")
    ∷ ("tags", array (str "test" ∷ str "demo" ∷ []))
    ∷ [])

abbrev updated_context : Value
updated_context = object (
    ("description", str "Updated test credential type")
    ∷ ("version", str "2.0")
    ∷ ("tags", array (str "test" ∷ str "demo" ∷ str "updated" ∷ []))
    ∷ [])

map-append :
    (f : Message × String → String × String) (xs ys : List (Message × String))
    → map f (xs ++ ys) ≡ map f xs ++ map f ys
map-append f [] ys = refl
map-append f (x ∷ xs) ys = ap (◌∷◌ (f x)) (map-append f xs ys)

module _ {S : Type 0} (sdk : Sdk) (profile : Profile) where
  -- The operations of the demonstration, in their order
  abbrev demo_steps : (trust_registry_did : String) → List (Effect (World S) String (Unit {0}))
  demo_steps trust_registry_did =
      let input = demo_input trust_registry_did in
      create_record sdk profile input true true (some created_context)
      ∷ read_record sdk profile input
      ∷ update_record sdk profile input false true (some updated_context)
      ∷ list_records sdk profile trust_registry_did
      ∷ delete_record sdk profile input
      ∷ read_record sdk profile input
      ∷ []

  -- Each step whether or not those before it failed
  abbrev attempt_all : List (Effect (World S) String (Unit {0})) → World S → World S
  attempt_all [] w = w
  attempt_all (step ∷ steps) w = attempt_all steps (step w).1

  unfoldable pub demo : (trust_registry_did : String) → World S → World S
  unfolding create_record read_record update_record list_records delete_record
  demo trust_registry_did w = attempt_all (demo_steps trust_registry_did) w

  -- The types of the messages so far, each with the party that it is for
  abbrev pub sent_types : World S → List (String × String)
  sent_types w = map (λ sent. (sent.0.type_, sent.1)) (messages w.calls)

  send_admin_message-types :
      (to message_type : String) (body : Value) (w : World S)
      → sent_types (send_admin_message sdk profile to message_type body w).1
        ≡ sent_types w ++ (message_type, to) ∷ []
  unfolding send_admin_message
  send_admin_message-types to message_type body w =
      ap (map (λ sent. (sent.0.type_, sent.1)))
        (pack_and_forward-Sends sdk profile (admin_message sdk profile w to message_type body) to
          w).sent
      ∙ map-append (λ sent. (sent.0.type_, sent.1)) (messages w.calls)
          ((admin_message sdk profile w to message_type body, to) ∷ [])

  -- Whatever the SDK answers to any of them, the demonstration hands six messages for the registry to
  -- the SDK: create, read, update, list, delete and read, in this order.
  pub demo-types :
      (to : String) (w : World S)
      → sent_types (demo to w)
        ≡ sent_types w
          ++ (create_record_type, to)
            ∷ (read_record_type, to)
            ∷ (update_record_type, to)
            ∷ (list_records_type, to)
            ∷ (delete_record_type, to)
            ∷ (read_record_type, to)
            ∷ []
  unfolding demo
  demo-types to w = simp (send_admin_message-types, append_assoc)
