-- ===== src/Configs/Didcomm.antt =====
-- trust-registry/src/configs/didcomm.rs. The decoding of a profile (derived by serde) is a parameter.
pub mod Loads
use affinidi_trust_registry.Json.{Value}
use affinidi_trust_registry.Configs.Environment.{Environment, required_env, optional_env, env_or}
use affinidi_trust_registry.Configs.Loaders.{Sources}
use affinidi_trust_registry.Configs.Loaders as Loaders
use affinidi_trust_registry.Didcomm.DidDocument.{ProfileConfig, build_did_document}
use affinidi_trust_registry.Prelude.Text.{split, trim, lowercase_is}
use affinidi_trust_registry.Prelude.{
  ℕ, String, ◌<>◌, Bool, true, false, Option, none, some, unwrap_or, List, [], map, Result, ok, err,
  ◌>>=◌, ok?, if◌then◌else◌, ◌==◌, string_eq,
}

pub data AuditLogFormat : Type 0 where
  text json : AuditLogFormat

unfoldable pub format_text : AuditLogFormat → String
format_text text = "text"
format_text json = "json"

unfoldable pub format_from_str : String → Result AuditLogFormat String
format_from_str s =
    if lowercase_is s "text"
    then ok text
    else if lowercase_is s "json"
    then ok json
    else err ("Invalid audit log format: " <> s)

pub record AdminConfig : Type 0 where
  pub admin_dids : List String
  pub log_format : AuditLogFormat

pub record DidcommConfig : Type 0 where
  pub is_enabled : Bool
  pub only_admin_operations : Bool
  pub profile_config : ProfileConfig
  pub mediator_did : String
  pub did_document : String
  pub admin_config : AdminConfig

-- `Default::default()`
abbrev pub default_config : DidcommConfig
default_config = record {
  is_enabled = false;
  only_admin_operations = false;
  profile_config = record { did = ""; alias = ""; secrets = [] };
  mediator_did = "";
  did_document = "";
  admin_config = record { admin_dids = []; log_format = text };
}

-- The administrators: the pieces between commas, trimmed
unfoldable pub admin_dids_of : (admin_dids_str : String) → List String
admin_dids_of admin_dids_str = map trim (split b',' admin_dids_str)

module _ (show_index : ℕ → String) (to_string : Value → String)
    (parse_profile_from_secrets_str : String → Result ProfileConfig String) (sources : Sources)
    (env : Environment) where
  unfoldable pub load_document :
      Option String → ProfileConfig → (mediator_did : String) → Result String String
  load_document none profile_config mediator_did =
      ok (build_did_document show_index to_string profile_config mediator_did)
  load_document (some doc) profile_config mediator_did = Loaders.load sources doc

  unfoldable pub admin_config : AdminConfig
  unfolding admin_dids_of
  admin_config = record {
    admin_dids = admin_dids_of (unwrap_or (optional_env env "ADMIN_DIDS") "");
    log_format = unwrap_or (ok? (format_from_str (env_or env "AUDIT_LOG_FORMAT" "text"))) text;
  }

  -- What is loaded where DIDComm is enabled
  unfoldable pub load_enabled : Result DidcommConfig String
  unfolding admin_config load_document
  load_enabled = required_env env "MEDIATOR_DID" >>= λ mediator_did.
      required_env env "PROFILE_CONFIG" >>= λ profile_configs_uri.
      Loaders.load sources profile_configs_uri >>= λ profile_configs_str.
      parse_profile_from_secrets_str profile_configs_str >>= λ profile_config.
      load_document (optional_env env "DID_DOCUMENT") profile_config mediator_did
      >>= λ did_document. ok (record {
        is_enabled = true;
        only_admin_operations = env_or env "ONLY_ADMIN_OPERATIONS" "false" == "true";
        profile_config = profile_config;
        mediator_did = mediator_did;
        did_document = did_document;
        admin_config = admin_config;
      })

  unfoldable pub load : Result DidcommConfig String
  unfolding load_enabled
  load = if env_or env "ENABLE_DIDCOMM" "true" == "true" then load_enabled else ok default_config
