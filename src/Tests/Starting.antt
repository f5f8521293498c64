-- ===== src/Tests/Starting.antt =====
-- A service that is configured and started.
use affinidi_trust_registry.Json.{Value}
use affinidi_trust_registry.Configs.Environment.{Environment}
use affinidi_trust_registry.Configs.Environment
use affinidi_trust_registry.Configs.Loaders as Loaders
use affinidi_trust_registry.Configs.Loaders.{Sources}
use affinidi_trust_registry.Configs.Server as Server
use affinidi_trust_registry.Configs.Server.{IsOrigin, load-IsOrigin}
use affinidi_trust_registry.Configs.Didcomm as Didcomm
use affinidi_trust_registry.Configs.Didcomm.{DidcommConfig, load_enabled, text, json}
use affinidi_trust_registry.Didcomm.DidDocument.{
  ProfileConfig, did_document_value, build_did_document,
}
use affinidi_trust_registry.Http.WellKnown.{
  handle_wellknown_did_json, handle_wellknown_did_json-load,
}
use affinidi_trust_registry.Server.{start, build_cors_layer}
use affinidi_trust_registry.Server.Starts.{Outcome, start-Outcome}
use affinidi_trust_registry.Server.Cors.{Allows, any, build_cors_layer-Allows}
use affinidi_trust_registry.Storage.File.{FileSystem}
use affinidi_trust_registry.Tests.Rows.{Disk, disk_system, csv, coding}
use affinidi_trust_registry.Setup.EnvFile.{Vars}
use affinidi_trust_registry.Setup.Arguments.{Args}
use affinidi_trust_registry.Setup.Tool.Writes.{Names}
use affinidi_trust_registry.Setup.Tool.Configures.{environment, Configures, load-Configures}
use affinidi_trust_registry.Prelude.HashMap.{get}
use affinidi_trust_registry.Prelude.Text.{split, trim, lowercase_is, strip_prefix}
use affinidi_trust_registry.Prelude.{
  ℕ, String, Bool, ◌≡◌, refl, true, false, Option, none, some, List, [], ◌∷◌, All, Result, ok, err,
  string_eq, String-discrete, ◌==◌, if◌then◌else◌,
}

abbrev sources : Sources
sources = record {
  read_to_string = λ path. err "no file";
  get_secret_value = λ name. err "no secret";
  get_parameter = λ name. err "no parameter";
}

abbrev parse_profile : String → Result ProfileConfig String
parse_profile t = ok (record { did = "did:registry"; alias = "registry"; secrets = [] })

abbrev show_index : ℕ → String
show_index n = "0"

abbrev to_string : Value → String
to_string v = "printed"

abbrev env : Environment
env name =
    if name == "MEDIATOR_DID"
    then some "did:mediator"
    else if name == "PROFILE_CONFIG"
    then some "{}"
    else if name == "ADMIN_DIDS"
    then some "did:admin, did:other"
    else if name == "CORS_ALLOWED_ORIGINS"
    then some "https://one, https://two"
    else none

abbrev config : DidcommConfig
config = record {
  is_enabled = true;
  only_admin_operations = false;
  profile_config = record { did = "did:registry"; alias = "registry"; secrets = [] };
  mediator_did = "did:mediator";
  did_document = "printed";
  admin_config = record { admin_dids = "did:admin" ∷ "did:other" ∷ []; log_format = text };
}

env-loads : Didcomm.load show_index to_string parse_profile sources env ≡ ok config
unfolding Didcomm.load Loaders.load String-discrete Environment.env_or Environment.required_env
    strip_prefix build_did_document split Didcomm.format_from_str trim lowercase_is
env-loads = refl

abbrev document : Value
document = did_document_value show_index config.profile_config config.mediator_did

enabled : (Environment.env_or env "ENABLE_DIDCOMM" "true" == "true") ≡ true
unfolding Environment.env_or String-discrete
enabled = refl

no_document : env "DID_DOCUMENT" ≡ none
unfolding String-discrete
no_document = refl

handle_wellknown_did_json-load_example :
    handle_wellknown_did_json (λ text. ok document) config
    ≡ record { status = 200; body = document }
handle_wellknown_did_json-load_example =
    handle_wellknown_did_json-load show_index to_string parse_profile sources env
      (λ text. ok document) config enabled no_document env-loads refl

load-IsOrigin_example : All IsOrigin (Server.load env).cors_allowed_origins
load-IsOrigin_example = load-IsOrigin env

abbrev origins : List String
origins = "https://one" ∷ "*" ∷ []

abbrev is_star : String → Bool
is_star origin = origin == "*"

abbrev parse_origin : String → Option String
parse_origin origin = some origin

build_cors_layer-Allows_example :
    Allows parse_origin
      (any is_star)
      is_star
      origins
      (build_cors_layer parse_origin (any is_star) origins)
build_cors_layer-Allows_example =
    build_cors_layer-Allows parse_origin (any is_star) is_star (λ list. refl) origins

abbrev fs_at : String → FileSystem Disk
fs_at path = disk_system

start-Outcome_example :
    Outcome show_index to_string parse_profile
      (λ text. ok 60)
      sources
      fs_at
      csv
      coding
      (λ config. ok tt)
      (λ redis_url. ok tt)
      env
      ("", 0)
      (start show_index to_string parse_profile
        (λ text. ok 60)
        sources
        fs_at
        csv
        coding
        (λ config. ok tt)
        (λ redis_url. ok tt)
        env
        ("", 0))
start-Outcome_example =
    start-Outcome {D = Unit {0}} {R = Unit {0}} show_index to_string parse_profile (λ text. ok 60)
      sources fs_at csv coding (λ config. ok tt) (λ redis_url. ok tt) env ("", 0)

-- The setup for a CSV file, and what the service makes of its variables
abbrev args : Args
args = record {
  mediator_url = some "https://mediator";
  mediator_did = some "did:mediator";
  did_method = some "peer";
  didweb_url = none;
  profile = none;
  storage_backend = "csv";
  file_storage_path = some "records.csv";
  ddb_table_name = some "test";
  admin_dids = some "did:admin, did:other";
  tr_did = none;
  tr_did_secret = none;
  test_in_pipeline = none;
  audit_log_format = some "json";
  only_admin_operations = some true;
}

abbrev written : Vars
written =
    ("PROFILE_CONFIG", "{}")
    ∷ ("MEDIATOR_DID", "did:mediator")
    ∷ ("ADMIN_DIDS", "did:admin, did:other")
    ∷ ("ONLY_ADMIN_OPERATIONS", "true")
    ∷ ("TR_STORAGE_BACKEND", "csv")
    ∷ ("FILE_STORAGE_PATH", "records.csv")
    ∷ ("AUDIT_LOG_FORMAT", "json")
    ∷ []

written-Names : Names args "{}" written
unfolding get String-discrete
written-Names = record {
  backend = refl;
  place = refl;
  is_placed = ("records.csv", refl);
  profile_config = refl;
  mediator_did = refl;
  admin_dids = refl;
  only_admin = refl;
  is_formatted = ("json", refl);
  audit_format = refl;
}

not_disabled : get "ENABLE_DIDCOMM" written ≡ none
unfolding get String-discrete
not_disabled = refl

abbrev restricted_config : DidcommConfig
restricted_config = record config {
  only_admin_operations = true;
  admin_config = record { admin_dids = "did:admin" ∷ "did:other" ∷ []; log_format = json };
}

written-loads :
    Didcomm.load show_index to_string parse_profile sources (environment written)
    ≡ ok restricted_config
unfolding get Didcomm.load Loaders.load String-discrete Environment.env_or Environment.required_env
    strip_prefix build_did_document split Didcomm.format_from_str trim lowercase_is
written-loads = refl

load-Configures_example : Configures args restricted_config
load-Configures_example =
    load-Configures show_index to_string parse_profile sources args "{}" written restricted_config
      written-Names not_disabled written-loads
