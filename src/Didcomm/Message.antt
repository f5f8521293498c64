-- ===== src/Didcomm/Message.antt =====
-- A DIDComm message, as far as the program reads and writes it (the type is the SDK's), with the
-- thread identifiers of trust-registry/src/didcomm/mod.rs.
use affinidi_trust_registry.Json.{Value, Fields, no_fields}
use affinidi_trust_registry.Prelude.{String, Option, none, some, or_else, List, [], ◌∷◌}

-- `headers` are the extra headers that a builder adds by name.
pub record Message : Type 0 where
  pub id : String
  pub type_ : String
  pub body : Value
  pub from : Option String
  pub to : Option (List String)
  pub thid : Option String
  pub pthid : Option String
  pub headers : Fields

-- `Message::build(id, type, body).from(from).to(to).finalize()`
abbrev pub build : (id type_ : String) → Value → (from to : String) → Message
build id type_ body from to = record {
  id = id;
  type_ = type_;
  body = body;
  from = some from;
  to = some (to ∷ []);
  thid = none;
  pthid = none;
  headers = no_fields;
}

unfoldable pub get_thread_id : Message → Option String
get_thread_id msg = or_else msg.thid (some msg.id)

unfoldable pub get_parent_thread_id : Message → Option String
unfolding get_thread_id
get_parent_thread_id msg = or_else msg.pthid (get_thread_id msg)
