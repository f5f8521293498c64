-- ===== src/Didcomm/World.antt =====
-- What a message handler works on: the store of the repository, and the calls that it makes of the
-- messaging SDK and of the audit logger, in their order. What the SDK answers, which identifiers
-- it draws (the n-th since the last call) and what the clock shows are parameters, which may depend
-- on all earlier calls.
use affinidi_trust_registry.Audit.Model.{AuditLog}
use affinidi_trust_registry.Didcomm.Message.{Message}
use affinidi_trust_registry.Storage.Repository.{RepositoryError, Access}
use affinidi_trust_registry.Prelude.Effect.{Effect}
use affinidi_trust_registry.Prelude.{ℕ, String, List, [], ◌∷◌, ◌++◌, Result, map_err}

-- `pack` is `pack_encrypted(message, to, from, sign_by)`, `forward` is
-- `forward_and_send_message(…, packed, id, mediator, to, …)`, `audit` is `log` of the audit logger.
pub data Call : Type 0 where
  pack : Message → (to from sign_by : String) → Call
  forward : (packed id mediator to : String) → Call
  audit : AuditLog → Call

pub record Sdk : Type 0 where
  pub new_uuid : List Call → ℕ → String
  pub now : List Call → ℕ
  pub packed : List Call → Result String String
  pub forwarded : List Call → Result (Unit {0}) String

-- The profile that the service listens as; `mediator` is what `unwrap` of the profile's mediator
-- gives, since the listener always builds the profile with one.
pub record Profile : Type 0 where
  pub alias : String
  pub did : String
  pub mediator : String

pub record World (S : Type 0) : Type 0 where
  pub store : S
  pub calls : List Call

-- The audit entries among the calls
abbrev pub audits : List Call → List AuditLog
audits [] = []
audits (audit entry ∷ calls) = entry ∷ audits calls
audits (pack message to from sign_by ∷ calls) = audits calls
audits (forward packed id mediator to ∷ calls) = audits calls

-- The messages among the calls, with the party that each is packed for
abbrev pub messages : List Call → List (Message × String)
messages [] = []
messages (audit entry ∷ calls) = messages calls
messages (pack message to from sign_by ∷ calls) = (message, to) ∷ messages calls
messages (forward packed id mediator to ∷ calls) = messages calls

module _ {S : Type 0} where
  abbrev pub record_call : Call → World S → World S
  record_call c w = record w { calls = w.calls ++ c ∷ [] }

  module _ (sdk : Sdk) where
    abbrev pub pack_encrypted :
        Message → (to from sign_by : String) → Effect (World S) String String
    pack_encrypted message to from sign_by w =
        let w' = record_call (pack message to from sign_by) w in (sdk.packed w'.calls, w')

    abbrev pub forward_and_send_message :
        (packed id mediator to : String) → Effect (World S) String (Unit {0})
    forward_and_send_message packed id mediator to w =
        let w' = record_call (forward packed id mediator to) w in (sdk.forwarded w'.calls, w')

-- A method of the repository, its error in another form
abbrev pub on_store : {S E A : Type 0} → (RepositoryError → E) → Access S A → Effect (World S) E A
on_store f m w = let (r, s) = m w.store in (map_err f r, record w { store = s })
