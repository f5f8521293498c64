-- ===== src/Didcomm/Listener/Queue.antt =====
-- The periodic task (sync_and_process_offline_messages, spawn_periodic_offline_sync) with a
-- mediator that queues messages, as the message pickup protocol describes it: it says how many wait,
-- delivers the first ones in their order, and deletes those that were received.
pub mod Drains
use affinidi_trust_registry.Didcomm.Listener.{Packet, Mediator, ids}
use affinidi_trust_registry.Prelude.{
  ℕ, zero, suc, ◌≡◌, false, String, List, [], ◌∷◌, length, ok, some, none, true, contains,
  string_eq, if◌then◌else◌,
}

module _ {ℓ} {A : Type ℓ} where
  abbrev pub take : ℕ → List A → List A
  take zero xs = []
  take (suc n) [] = []
  take (suc n) (x ∷ xs) = x ∷ take n xs

  abbrev pub drop : ℕ → List A → List A
  drop zero xs = xs
  drop (suc n) [] = []
  drop (suc n) (x ∷ xs) = drop n xs

module _ {Meta : Type 0} where
  abbrev pub without : List String → List (Packet Meta) → List (Packet Meta)
  without messages [] = []
  without messages (packet ∷ packets) =
      let rest = without messages packets in
      if contains messages packet.0.id then rest else packet ∷ rest

  -- No two messages have the same id.
  abbrev pub Distinct : List (Packet Meta) → Type 0
  Distinct [] = Unit
  Distinct (packet ∷ packets) = (contains (ids packets) packet.0.id ≡ false) × Distinct packets

-- The messages that wait, and what the three requests do to them
pub record IsQueue {M Meta AclSet : Type 0} (pending : M → List (Packet Meta))
    (mediator : Mediator M Meta AclSet) : Type 0 where
  pub counts :
      (m : M) → (mediator.send_status_request true none m).0 ≡ ok (some (length (pending m)))
  pub counts_only : (m : M) → pending (mediator.send_status_request true none m).1 ≡ pending m
  pub delivers :
      (limit : ℕ) (m : M)
      → (mediator.send_delivery_request (some limit) true m).0 ≡ ok (take limit (pending m))
  pub delivers_only :
      (limit : ℕ) (m : M)
      → pending (mediator.send_delivery_request (some limit) true m).1 ≡ pending m
  pub deletes :
      (messages : List String) (m : M)
      → pending (mediator.send_messages_received messages true m).1 ≡ without messages (pending m)
