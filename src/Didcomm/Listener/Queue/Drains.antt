-- ===== src/Didcomm/Listener/Queue/Drains.antt =====
-- What the rounds of the periodic task do with a mediator that queues messages.
use mathlib.Core.List.{append-nil, append_assoc}
use Prim.Native.Nat.{◌*◌}
use affinidi_trust_registry.Didcomm.Listener.{
  Packet, Mediator, Inbox, request_status, messages_limit, ids, acknowledge,
  sync_and_process_offline_messages, sync_rounds,
}
use affinidi_trust_registry.Didcomm.Listener.Requests.{
  status, delivery, request_status_lem, fetch_messages-ok, acknowledge_lem, message_count,
  handed_out,
}
use affinidi_trust_registry.Didcomm.Listener.Queue.{take, drop, without, Distinct, IsQueue}
use affinidi_trust_registry.Prelude.{
  ℕ, zero, suc, ◌+◌, ◌≤◌, ◌≡◌, refl, sym, ap, ◌∙◌, subst, true, false, String, List, [], ◌∷◌, ◌++◌,
  length, ok, contains, string_eq, arith, Bool-cases, inl, inr,
}
use affinidi_trust_registry.Prelude.Text.{nat_eq}

module _ {ℓ} {A : Type ℓ} where
  take-drop : (n : ℕ) (xs : List A) → take n xs ++ drop n xs ≡ xs
  take-drop zero xs = refl
  take-drop (suc n) [] = refl
  take-drop (suc n) (x ∷ xs) = ap (◌∷◌ x) (take-drop n xs)

  length-drop : (n k : ℕ) (xs : List A) → length xs ≤ n + k → length (drop n xs) ≤ k
  length-drop zero k xs h = omega arith
  length-drop (suc n) k [] h = omega arith
  length-drop (suc n) k (x ∷ xs) h = length-drop n k xs (omega arith)

module _ {Meta : Type 0} where
  contains-drop :
      (n : ℕ) (xs : List (Packet Meta)) (id : String)
      → contains (ids xs) id ≡ false
      → contains (ids (drop n xs)) id ≡ false
  contains-drop zero xs id h = h
  contains-drop (suc n) [] id h = refl
  contains-drop (suc n) (x ∷ xs) id h = contains-drop n xs id (ground arith)

  Distinct-drop : (n : ℕ) (xs : List (Packet Meta)) → Distinct xs → Distinct (drop n xs)
  Distinct-drop zero xs d = d
  Distinct-drop (suc n) [] d = tt
  Distinct-drop (suc n) (x ∷ xs) d = Distinct-drop n xs d.1

  without-none : (xs : List (Packet Meta)) → without [] xs ≡ xs
  without-none [] = refl
  without-none (x ∷ xs) = ap (◌∷◌ x) (without-none xs)

  -- An id that no message has is of no effect.
  without-absent :
      (id : String) (l : List String) (xs : List (Packet Meta))
      → contains (ids xs) id ≡ false
      → without (id ∷ l) xs ≡ without l xs
  without-absent id l [] h = refl
  without-absent id l (x ∷ xs) h = ground (arith, without-absent id l xs)

  without-take :
      (n : ℕ) (xs : List (Packet Meta)) → Distinct xs → without (ids (take n xs)) xs ≡ drop n xs
  without-take zero xs d = without-none xs
  without-take (suc n) [] d = refl
  without-take (suc n) (x ∷ xs) d =
      ground (arith, without-absent x.0.id (ids (take n xs)) xs, without-take n xs d.1)

module _ {M Meta AclSet : Type 0} (mediator : Mediator M Meta AclSet)
    (pending : M → List (Packet Meta)) (queue : IsQueue pending mediator) where
  -- After a round: the first messages are started, and the others wait.
  pub record AfterRound (w w' : Inbox M Meta) : Type 0 where
    pub waiting : pending w'.mediator ≡ drop messages_limit (pending w.mediator)
    pub begun : w'.started ≡ w.started ++ take messages_limit (pending w.mediator)

  acknowledged-AfterRound :
      (w : Inbox M Meta)
      → Distinct (pending w.mediator)
      → AfterRound w
          (acknowledge mediator (ids (take messages_limit (pending w.mediator))) (
            handed_out mediator w
              (take messages_limit (pending w.mediator))
              (delivery mediator w).1)).1
  acknowledged-AfterRound w d = rw (acknowledge_lem mediator) (record {
    waiting =
        queue.deletes _ _
        ∙ ap (without (ids (take messages_limit (pending w.mediator))))
            (queue.delivers_only messages_limit w.mediator)
        ∙ without-take messages_limit (pending w.mediator) d;
    begun = refl;
  })

  -- The inbox after the first request
  abbrev counted_in : Inbox M Meta → Inbox M Meta
  counted_in w = record w { mediator = (status mediator w).1 }

  request_status-counts :
      (w : Inbox M Meta)
      → request_status mediator w ≡ (ok (length (pending w.mediator)), counted_in w)
  request_status-counts w =
      request_status_lem mediator w
      ∙ ap (λ r. (message_count mediator w r, counted_in w)) (queue.counts w.mediator)

  empty-AfterRound :
      (w : Inbox M Meta)
      → nat_eq (length (pending w.mediator)) 0 ≡ true
      → AfterRound w (counted_in w)
  empty-AfterRound w e =
      let empty : pending w.mediator ≡ [] = ground arith in
      record {
        waiting = queue.counts_only w.mediator ∙ rw empty refl;
        begun = rw (empty, append-nil w.started) refl;
      }

  -- Counting changes nothing of a round.
  counted-AfterRound :
      (w : Inbox M Meta) {w' : Inbox M Meta} → AfterRound (counted_in w) w' → AfterRound w w'
  counted-AfterRound w a =
      let same = queue.counts_only w.mediator in
      record {
        waiting = a.waiting ∙ ap (drop messages_limit) same;
        begun = a.begun ∙ ap (λ l. w.started ++ take messages_limit l) same;
      }

  sync-AfterRound :
      (w : Inbox M Meta)
      → Distinct (pending w.mediator)
      → AfterRound w (sync_and_process_offline_messages mediator w).1
  unfolding sync_and_process_offline_messages
  sync-AfterRound w d = elim (Bool-cases (nat_eq (length (pending w.mediator)) 0)) [
    | inl e ↦ rw (request_status-counts w, e) (empty-AfterRound w e)
    | inr e ↦
        rw
          (
            request_status-counts w,
            e,
            fetch_messages-ok mediator (counted_in w)
                (queue.delivers messages_limit (status mediator w).1),
          )
          (counted-AfterRound w (
            acknowledged-AfterRound (counted_in w)
              (subst Distinct (sym (queue.counts_only w.mediator)) d)))
  ]

  -- If the mediator queues messages, and those that wait have distinct ids, then after n rounds of the
  -- periodic task without other arrivals, where 100 messages a round are enough for all, none waits,
  -- and the handlers of all were started, each once and in the order of the queue.
  pub sync_rounds-drain :
      (n : ℕ) (w : Inbox M Meta)
      → Distinct (pending w.mediator)
      → length (pending w.mediator) ≤ n * messages_limit
      → (pending (sync_rounds mediator n w).mediator ≡ [])
        × ((sync_rounds mediator n w).started ≡ w.started ++ pending w.mediator)
  unfolding sync_rounds
  sync_rounds-drain zero w d h =
      let empty : pending w.mediator ≡ [] = ground arith in
      (empty, rw (empty, append-nil w.started) refl)
  sync_rounds-drain (suc n) w d h =
      let after = (sync_and_process_offline_messages mediator w).1 in
      let round = sync-AfterRound w d in
      let rest =
        sync_rounds-drain n after
          (subst Distinct (sym round.waiting) (Distinct-drop messages_limit (pending w.mediator) d))
          (rw round.waiting
            (length-drop messages_limit (n * messages_limit) (pending w.mediator) (omega arith))) in
      (
        rest.0,
        rest.1
            ∙ rw (round.begun, round.waiting)
                (append_assoc w.started (take messages_limit (pending w.mediator))
                    (drop messages_limit (pending w.mediator))
                  ∙ ap (λ l. w.started ++ l) (take-drop messages_limit (pending w.mediator))),
      )
