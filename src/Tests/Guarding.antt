-- ===== src/Tests/Guarding.antt =====
-- A mediator that holds the mode of one access list, and the listener with it.
use affinidi_trust_registry.Didcomm.Listener.{
  Mediator, AccessListModeType, explicit_allow, explicit_deny, set_public_acls_mode,
  process_next_message,
}
use affinidi_trust_registry.Didcomm.Listener.Access.{HoldsModes, Listens-mode}
use affinidi_trust_registry.Didcomm.Listener.Running.{
  asleep, Listening, empty_inbox, turn, here, next, Listens,
}
use affinidi_trust_registry.Tests.Fixtures.{profile, create_licence}
use affinidi_trust_registry.Prelude.{
  String, ◌≡◌, refl, sym, ap, ◌∙◌, true, if◌then◌else◌, Option, none, some, [], ok, Result,
}

abbrev Mode : Type 0
Mode = Option AccessListModeType

abbrev mediator : Mediator Mode (Unit {0}) AccessListModeType
mediator = record {
  from_u64 = λ n. explicit_deny;
  set_access_list_mode = λ mode self_change admin acls. ok mode;
  digest = λ did. did;
  account_get = λ m. (ok (some 7), m);
  acls_set = λ did acls m. (ok tt, some acls);
  live_stream_next = λ wait auto_delete m. (ok (some (create_licence, tt)), m);
  send_status_request = λ wait_for wait m. (ok none, m);
  send_delivery_request = λ limit wait_for m. (ok [], m);
  send_messages_received = λ messages wait_for m. (ok (some 0), m);
}

abbrev Only : Mode → Mode → Type 0
Only m m' = m' ≡ m

abbrev okay : {A : Type 0} → A → Result A String → A
okay a (ok b) = b
okay a _ = a

abbrev holds : HoldsModes mediator Only
holds = record {
  mode_of = λ m digest. m;
  stores =
      λ mode acls changed digest m m' e f. sym (ap (λ r. r.1) f) ∙ ap some (sym (ap (okay mode) e));
  streaming = λ m digest. refl;
  counting = λ m digest. refl;
  delivering = λ m digest. refl;
  receiving = λ messages m digest. refl;
  changing = λ m m' digest e. e;
}

abbrev guarded : Listening Mode (Unit {0})
guarded = record { inbox = empty_inbox (some explicit_allow); sync_task = asleep }

abbrev after_turn : Listening Mode (Unit {0})
after_turn = record guarded { inbox = (process_next_message mediator guarded.inbox).1 }

set_mode : set_public_acls_mode mediator profile true (empty_inbox none) ≡ (ok tt, guarded.inbox)
unfolding set_public_acls_mode
set_mode = refl

after_turn-Listens : Listens mediator profile true Only none after_turn
after_turn-Listens = record {
  w = guarded.inbox;
  allowed = set_mode;
  reached = next here (turn refl);
}

Listens-mode_example :
    holds.mode_of after_turn.inbox.mediator profile.did
    ≡ some (if true then explicit_allow else explicit_deny)
Listens-mode_example =
    Listens-mode mediator Only holds profile true none after_turn after_turn-Listens
