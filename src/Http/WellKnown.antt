-- ===== src/Http/WellKnown.antt =====
-- trust-registry/src/http/handlers/wellknown/did_json.rs: the DID document that is served. Parsing
-- JSON is a parameter.
use affinidi_trust_registry.Json.{Value, obj, no_fields}
use affinidi_trust_registry.Configs.Environment.{Environment, env_or}
use affinidi_trust_registry.Configs.Loaders.{Sources}
use affinidi_trust_registry.Configs.Didcomm.{DidcommConfig, load, load_document}
use affinidi_trust_registry.Configs.Didcomm.Loads.{load-Loads}
use affinidi_trust_registry.Didcomm.DidDocument.{
  ProfileConfig, did_document_value, build_did_document,
}
use affinidi_trust_registry.Http.Error.{Response}
use affinidi_trust_registry.Prelude.{
  ℕ, String, ◌≡◌, refl, sym, ap, true, none, Result, ok, err, ◌==◌, string_eq,
}

abbrev or_empty : Result Value String → Value
or_empty (ok value) = value
or_empty (err e) = obj no_fields

unfoldable pub handle_wellknown_did_json :
    (from_str : String → Result Value String) → DidcommConfig → Response
handle_wellknown_did_json from_str config = record {
  status = 200;
  body = or_empty (from_str config.did_document);
}

module _ (show_index : ℕ → String) (to_string : Value → String)
    (parse_profile_from_secrets_str : String → Result ProfileConfig String) (sources : Sources)
    (env : Environment) (from_str : String → Result Value String) where
  abbrev text_in : Result String String → String
  text_in (ok text) = text
  text_in (err problem) = ""

  built_document :
      (config : DidcommConfig)
      → load_document show_index to_string parse_profile_from_secrets_str sources env none
          config.profile_config config.mediator_did
        ≡ ok config.did_document
      → config.did_document
        ≡ to_string (did_document_value show_index config.profile_config config.mediator_did)
  unfolding load_document build_did_document
  built_document config e = sym (ap text_in e)

  -- If DIDComm is enabled, no DID document is configured, and the printed document is parsed back,
  -- then the well-known endpoint serves, with status 200, the DID document that is built of the
  -- loaded profile and mediator.
  pub handle_wellknown_did_json-load :
      (config : DidcommConfig)
      → (env_or env "ENABLE_DIDCOMM" "true" == "true") ≡ true
      → env "DID_DOCUMENT" ≡ none
      → load show_index to_string parse_profile_from_secrets_str sources env ≡ ok config
      → from_str
          (to_string (did_document_value show_index config.profile_config config.mediator_did))
        ≡ ok (did_document_value show_index config.profile_config config.mediator_did)
      → handle_wellknown_did_json from_str config ≡ record {
        status = 200;
        body = did_document_value show_index config.profile_config config.mediator_did;
      }
  unfolding handle_wellknown_did_json
  handle_wellknown_did_json-load config e d l p =
      let loads = load-Loads show_index to_string parse_profile_from_secrets_str sources env e l in
      let document = built_document config (rw (sym d) loads.document) in rw (document, p) refl
