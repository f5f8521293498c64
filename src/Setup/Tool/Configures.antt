-- ===== src/Setup/Tool/Configures.antt =====
-- What a service is configured for whose environment holds the variables of the setup.
use affinidi_trust_registry.Json.{Value}
use affinidi_trust_registry.Configs.Environment.{Environment, env_or, optional_env}
use affinidi_trust_registry.Configs.Loaders.{Sources}
use affinidi_trust_registry.Configs.Didcomm.{DidcommConfig, admin_dids_of, admin_config, load}
use affinidi_trust_registry.Configs.Didcomm.Loads.{load-Loads}
use affinidi_trust_registry.Didcomm.DidDocument.{ProfileConfig}
use affinidi_trust_registry.Didcomm.Listener.{access_list_mode, explicit_allow, explicit_deny}
use affinidi_trust_registry.Setup.EnvFile.{Vars}
use affinidi_trust_registry.Setup.Arguments.{Args, given, bool_text}
use affinidi_trust_registry.Setup.Tool.Writes.{Names}
use affinidi_trust_registry.Prelude.HashMap.{get}
use affinidi_trust_registry.Prelude.{
  ℕ, String, ◌≡◌, refl, sym, ap, ◌∙◌, Bool, true, false, none, unwrap_or, Result, ok, if◌then◌else◌,
  ◌==◌, string_eq, String-discrete,
}

-- The environment that holds just these variables
abbrev pub environment : Vars → Environment
environment vars name = get name vars

-- The administrators, the mediator and who may send messages are as the arguments say.
pub record Configures (args : Args) (config : DidcommConfig) : Type 0 where
  pub enabled : config.is_enabled ≡ true
  pub admins : config.admin_config.admin_dids ≡ admin_dids_of (given args.admin_dids)
  pub mediator : config.mediator_did ≡ given args.mediator_did
  pub only_admin : config.only_admin_operations ≡ unwrap_or args.only_admin_operations false
  pub mode :
      access_list_mode config.only_admin_operations
      ≡ (if unwrap_or args.only_admin_operations false then explicit_allow else explicit_deny)

bool_text_lem : (b : Bool) → (bool_text b == "true") ≡ b
unfolding String-discrete
bool_text_lem true = refl
bool_text_lem false = refl

module _ (show_index : ℕ → String) (to_string : Value → String)
    (parse_profile_from_secrets_str : String → Result ProfileConfig String)
    (sources : Sources) where
  -- If the variables of a service name what the arguments of the setup say, nothing disables DIDComm,
  -- and the configuration can be loaded, then its administrators are those of the arguments, split at
  -- commas and trimmed, its mediator is the one of the arguments, and it restricts the senders of
  -- messages just if the arguments ask for administrators only.
  pub load-Configures :
      (args : Args) (profile : String) (vars : Vars) (config : DidcommConfig)
      → Names args profile vars
      → get "ENABLE_DIDCOMM" vars ≡ none
      → load show_index to_string parse_profile_from_secrets_str sources (environment vars)
        ≡ ok config
      → Configures args config
  unfolding admin_config env_or optional_env
  load-Configures args profile vars config n absent l =
      let loads =
        load-Loads show_index to_string parse_profile_from_secrets_str sources (environment vars)
          (ap (λ o. unwrap_or o "true" == "true") absent ∙ bool_text_lem true) l in
      let only : config.only_admin_operations ≡ unwrap_or args.only_admin_operations false =
        loads.only_admin
        ∙ (ap (λ o. unwrap_or o "false" == "true") n.only_admin
            ∙ bool_text_lem (unwrap_or args.only_admin_operations false)) in
      record {
        enabled = loads.enabled;
        admins =
            ap (λ a. a.admin_dids) loads.admin
            ∙ ap (λ o. admin_dids_of (unwrap_or o "")) n.admin_dids;
        mediator = ap (λ o. unwrap_or o "") (sym loads.mediator ∙ n.mediator_did);
        only_admin = only;
        mode = ap access_list_mode only;
      }
