-- ===== src/Setup/Tool.antt =====
-- trust-registry/bin/setup_trust_registry.rs: from the arguments to the mediator's access lists and
-- the files of variables. The state `W` is all that lies outside; parsing a URL, reading and
-- printing JSON and `setup_did_web_tr`, which is in Hosted, are parameters, and what is printed is
-- not modelled.
pub mod Writes
pub mod Configures
use affinidi_trust_registry.Json.{Value, str, object}
use affinidi_trust_registry.Setup.EnvFile.{Files, Vars, insert_env_vars}
use affinidi_trust_registry.Setup.Acl.{AclService, set_acl}
use affinidi_trust_registry.Setup.Did.{Secret, Peer, create_did}
use affinidi_trust_registry.Setup.Arguments.{
  Args, is_empty, given, quoted, enable_didcomm, server_vars, test_vars,
}
use affinidi_trust_registry.Prelude.HashMap.{insert}
use affinidi_trust_registry.Prelude.Effect.{Effect, pure, raise, lift, ◌>>=◌, ◌>>◌}
use affinidi_trust_registry.Prelude.{
  String, ◌<>◌, Bool, true, false, ◌&&◌, ◌||◌, not, if◌then◌else◌, Option, none, some, unwrap_or,
  List, [], ◌∷◌, Result, ok, err, map_err, ok_or, ◌==◌, string_eq,
}

pub record ProfileConfig (K : Type 0) : Type 0 where
  pub alias : String
  pub did : String
  pub secrets : List (Secret K)

-- What the tool uses of other crates, and `setup_did_web_tr` of Hosted
pub record Outside (W K : Type 0) : Type 0 where
  pub parse_url : String → Result String String
  pub parse_secrets : String → Result (List (Secret K)) String
  pub config_json : ProfileConfig K → Result String String
  pub config_json_pretty : ProfileConfig K → Result String String
  pub secrets_value : List (Secret K) → Value
  pub to_string : Value → Result String String
  pub setup_did_web_tr :
      (mediator_url web_url did_method : String) → Effect W String (String × List (Secret K))

abbrev pub config_of : {K : Type 0} → String → List (Secret K) → ProfileConfig K
config_of did secrets = record { alias = "Trust Registry"; did = did; secrets = secrets }

module _ {W K Meta AclSet : Type 0} (outside : Outside W K) (files : Files W) (peer : Peer W K)
    (acl : AclService W Meta AclSet (Secret K)) where
  unfoldable pub setup_did_peer_tr :
      (mediator_url : String) → Effect W String (String × List (Secret K))
  setup_did_peer_tr mediator_url = create_did peer (some (mediator_url ∷ [])) true

  -- Mode 2: a new DID of the chosen method
  unfoldable pub new_did :
      Args → (did_method mediator_url : String) → Effect W String (String × List (Secret K))
  unfolding setup_did_peer_tr
  new_did args did_method mediator_url =
      if did_method == "peer"
      then setup_did_peer_tr mediator_url
      else if did_method == "web" || did_method == "webvh"
      then (lift (
            ok_or args.didweb_url
              ("--didweb-url is required when using did:" <> (did_method <> " method.")))
          >>= λ web_url. outside.setup_did_web_tr mediator_url web_url did_method)
      else raise ("Unsupported DID method: " <> (did_method <> "."))

  -- Mode 1: the DID that was given
  unfoldable pub existing_did : Args → Effect W String (Option (ProfileConfig K) × String)
  existing_did args = do
    secrets ← lift (
        map_err (λ e. "Failed to parse existing_tr_did_secret as JSON: " <> e)
          (outside.parse_secrets (given args.tr_did_secret)))
    text ← lift (outside.config_json (config_of (given args.tr_did) secrets))
    pure (some (config_of (given args.tr_did) secrets), quoted text)

  -- The text for PROFILE_CONFIG: the new profile, or the place that was given to save it at
  abbrev profile_text : (profile : String) → ProfileConfig K → Effect W String String
  profile_text profile config =
      if is_empty profile
      then (lift (outside.config_json config) >>= λ text. pure (quoted text))
      else (lift (outside.config_json_pretty config) >>= λ shown. pure profile)

  unfoldable pub generated_did :
      Args → (mediator_url : String) → Effect W String (Option (ProfileConfig K) × String)
  unfolding new_did
  generated_did args mediator_url = do
    made ← new_did args (given args.did_method) mediator_url
    text ← profile_text (given args.profile) (config_of made.0 made.1)
    pure (some (config_of made.0 made.1), text)

  -- The profile to open at the mediator, where the tool has it, and the text for PROFILE_CONFIG
  unfoldable pub choose_profile :
      Args → (mediator_url : String) → Effect W String (Option (ProfileConfig K) × String)
  unfolding existing_did generated_did
  choose_profile args mediator_url =
      if not (is_empty (given args.tr_did)) && not (is_empty (given args.tr_did_secret))
      then existing_did args
      else if not (is_empty (given args.did_method))
      then generated_did args mediator_url
      else pure (none, given args.profile)

  abbrev pub open_profile :
      (only_admin_operations : Bool)
      → (mediator_did : String) → Option (ProfileConfig K)
      → Effect W String (Unit {0})
  open_profile only_admin_operations mediator_did none = pure tt
  open_profile only_admin_operations mediator_did (some config) =
      if not only_admin_operations
      then set_acl acl config.alias config.did mediator_did config.secrets
      else pure tt

  abbrev write_test_file :
      (in_pipeline : Bool) → (mediator_did : String) → Vars → Effect W String (Unit {0})
  write_test_file true mediator_did vars = insert_env_vars files "./.env.pipeline" vars none
  write_test_file false mediator_did vars =
      insert_env_vars files "./.env.test" (insert "MEDIATOR_DID" mediator_did vars)
        (some "./testing/.env.test.example")

  abbrev test_profile : String × List (Secret K) → Value
  test_profile made = object (
      ("did", str made.0)
      ∷ ("alias", str "Test Trust Registry")
      ∷ ("secrets", outside.secrets_value made.1)
      ∷ [])

  -- `for ds in dids_and_secrets`
  abbrev pub set_acls :
      (mediator_did : String) → List (String × List (Secret K)) → Effect W String (Unit {0})
  set_acls mediator_did [] = pure tt
  set_acls mediator_did (made ∷ others) =
      set_acl acl made.0 made.0 mediator_did made.1 >> set_acls mediator_did others

  unfoldable pub setup_test_trust_registry :
      (mediator_url mediator_did : String) → (in_pipeline : Bool) → Effect W String (Unit {0})
  setup_test_trust_registry mediator_url mediator_did in_pipeline = do
    tr ← create_did peer (some (mediator_url ∷ [])) true
    client ← create_did peer (some (mediator_url ∷ [])) true
    secrets_text ← lift (outside.to_string (outside.secrets_value client.1))
    client_secrets ← lift (outside.to_string (str secrets_text))
    profile_config ← lift (outside.to_string (test_profile tr))
    write_test_file in_pipeline mediator_did (test_vars tr.0 client.0 client_secrets profile_config)
    set_acls mediator_did (tr ∷ client ∷ [])

  abbrev invalid_url : Args → String → String
  invalid_url args e = "Invalid mediator URL '" <> (given args.mediator_url <> ("': " <> e))

  -- What is done with a mediator; the result is the text for PROFILE_CONFIG.
  unfoldable pub setup_didcomm : Args → Effect W String String
  setup_didcomm args = do
    parsed_mediator_url ←
        lift (map_err (invalid_url args) (outside.parse_url (given args.mediator_url)))
    chosen ← choose_profile args parsed_mediator_url
    open_profile (unwrap_or args.only_admin_operations false) (given args.mediator_did) chosen.0
    setup_test_trust_registry (given args.mediator_url) (given args.mediator_did)
        (unwrap_or args.test_in_pipeline false)
    pure chosen.1

  abbrev pub profile_of : Args → Effect W String String
  profile_of args = if enable_didcomm args then setup_didcomm args else pure (given args.profile)

  unfoldable pub main : Args → Effect W String (Unit {0})
  main args = do
    profile ← profile_of args
    vars ← lift (server_vars args profile)
    insert_env_vars files "./.env" vars (some "./.env.example")
