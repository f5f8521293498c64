-- ===== src/Setup/Hosted.antt =====
-- `setup_did_web_tr` of trust-registry/bin/setup_trust_registry.rs: a new DID that is hosted at a
-- URL, with its document in the file did.json and, for did:webvh, its log in did.jsonl. Keys, logs,
-- files and the terminal belong to other crates; what `unwrap` meets an error at is an error.
pub mod Saves
use affinidi_trust_registry.Json.{Value, get_key}
use affinidi_trust_registry.Setup.Did.{Secret}
use affinidi_trust_registry.Setup.Document.{Document, Urls, Jwks, document_of, secrets_of}
use affinidi_trust_registry.Prelude.Text.{replace}
use affinidi_trust_registry.Prelude.Effect.{Effect, pure, lift, ◌>>=◌, ◌>>◌}
use affinidi_trust_registry.Prelude.{
  String, ◌<>◌, Bool, true, if◌then◌else◌, List, [], ◌∷◌, Result, ok_or, ◌==◌, string_eq,
}

-- What `Parameters::new()` is built with
pub record Parameters : Type 0 where
  pub key_pre_rotation : Bool
  pub update_keys : List String
  pub next_key_hashes : List String
  pub portable : Bool

-- `web_url` parses a URL and prints it as a did:webvh that is still to be created; `multibase` and
-- `multibase_hash` are of the public key. `L` are the log entries of did:webvh. `press_key` is the
-- loop that reads events of the terminal until one is a key press.
pub record Host (W K L : Type 0) : Type 0 where
  pub urls : Urls
  pub jwks : Jwks K
  pub web_url : String → Result String String
  pub generate_p256 : Effect W String (Secret K)
  pub generate_secp256k1 : Effect W String (Secret K)
  pub generate_ed25519 : Effect W String (Secret K)
  pub multibase : K → Result String String
  pub multibase_hash : K → Result String String
  pub to_value : Document → Result Value String
  pub from_value : Value → Result Document String
  pub to_string_pretty : Document → Result String String
  pub value_text : Value → String
  pub create_log_entry : Value → Parameters → Secret K → Effect W String L
  pub state : L → Value
  pub log_document : L → Result Value String
  pub save_log : L → (path : String) → Effect W String (Unit {0})
  pub create_file : (path : String) → Effect W String (Unit {0})
  pub write_all : (path text : String) → Effect W String (Unit {0})
  pub press_key : Effect W String (Unit {0})

module _ {W K L : Type 0} (host : Host W K L) where
  -- The two keys, each with its public key for an id
  unfoldable pub create_keys : Effect W String (Secret K × Secret K)
  create_keys = do
    verification_key ← host.generate_p256
    encryption_key ← host.generate_secp256k1
    verification_id ← lift (host.multibase verification_key.key)
    encryption_id ← lift (host.multibase encryption_key.key)
    pure (
      record verification_key { id = verification_id },
      record encryption_key { id = encryption_id },
    )

  abbrev pub raw_did : (did_method url_text : String) → String
  raw_did did_method url_text =
      if did_method == "web" then replace "webvh:{SCID}" "web" url_text else url_text

  -- The first log entry, and the DID and the document that follow from it
  unfoldable pub create_log : Document → Effect W String (String × Document)
  create_log document = do
    update ← host.generate_ed25519
    update_key ← lift (host.multibase update.key)
    next_update ← host.generate_ed25519
    next_hash ← lift (host.multibase_hash next_update.key)
    value ← lift (host.to_value document)
    log_entry ←
        host.create_log_entry value
          (record {
            key_pre_rotation = true;
            update_keys = update_key ∷ [];
            next_key_hashes = next_hash ∷ [];
            portable = true;
          })
          (record update { id = "did:key:" <> (update_key <> ("#" <> update_key)) })
    id ←
        lift (
          ok_or (get_key "id" (host.state log_entry)) "called `Option::unwrap()` on a `None` value")
    saved ← host.save_log log_entry "did.jsonl"
    logged ← lift (host.log_document log_entry)
    final ← lift (host.from_value logged)
    pure (replace "\"" "" (host.value_text id), final)

  -- The file did.json, and waiting until the document is hosted
  unfoldable pub save_document : Document → Effect W String (Unit {0})
  save_document document = do
    created ← host.create_file "did.json"
    text ← lift (host.to_string_pretty document)
    written ← host.write_all "did.json" text
    host.press_key

  abbrev pub logged : (did_method did : String) → Document → Effect W String (String × Document)
  logged did_method did document =
      if did_method == "webvh" then create_log document else pure (did, document)

  unfoldable pub setup_did_web_tr :
      (mediator_url web_url did_method : String) → Effect W String (String × List (Secret K))
  unfolding create_keys create_log save_document
  setup_did_web_tr mediator_url web_url did_method = do
    url_text ← lift (host.web_url web_url)
    keys ← create_keys
    document ←
        lift (document_of host.urls (raw_did did_method url_text) keys.0.id keys.1.id mediator_url)
    made ← logged did_method (raw_did did_method url_text) document
    secrets ← lift (secrets_of host.jwks made.0 keys.0.key keys.1.key)
    saved ← save_document made.1
    pure (made.0, secrets)
