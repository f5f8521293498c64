-- ===== src/Configs/Didcomm/Loads.antt =====
-- What a loaded DIDComm configuration holds.
use affinidi_trust_registry.Json.{Value}
use affinidi_trust_registry.Configs.Environment.{Environment, required_env, optional_env, env_or}
use affinidi_trust_registry.Configs.Loaders.{Sources}
use affinidi_trust_registry.Configs.Loaders as Loaders
use affinidi_trust_registry.Configs.Didcomm.{
  DidcommConfig, default_config, admin_config, load_document, load_enabled, load,
}
use affinidi_trust_registry.Didcomm.DidDocument.{ProfileConfig}
use affinidi_trust_registry.Prelude.{
  ℕ, String, ◌≡◌, refl, sym, ap, ◌∙◌, subst, Bool, true, false, some, Result, ok, err,
  if◌then◌else◌, ◌==◌, string_eq, Bool-cases, Result-cases, Option-cases, inl, inr,
}

module _ (show_index : ℕ → String) (to_string : Value → String)
    (parse_profile_from_secrets_str : String → Result ProfileConfig String) (sources : Sources)
    (env : Environment) where
  pub record Loads (config : DidcommConfig) : Type 0 where
    pub enabled : config.is_enabled ≡ true
    pub only_admin :
        config.only_admin_operations ≡ (env_or env "ONLY_ADMIN_OPERATIONS" "false" == "true")
    pub admin :
        config.admin_config
        ≡ admin_config show_index to_string parse_profile_from_secrets_str sources env
    pub mediator : env "MEDIATOR_DID" ≡ some config.mediator_did
    pub document :
        load_document show_index to_string parse_profile_from_secrets_str sources env
          (env "DID_DOCUMENT")
          config.profile_config
          config.mediator_did
        ≡ ok config.did_document

  abbrev LoadsResult : Result DidcommConfig String → Type 0
  LoadsResult (ok config) = Loads config
  LoadsResult (err problem) = Unit

  load_enabled-LoadsResult :
      LoadsResult (load_enabled show_index to_string parse_profile_from_secrets_str sources env)
  unfolding load_enabled required_env optional_env
  load_enabled-LoadsResult = elim (Option-cases (env "MEDIATOR_DID")) [
    | inl absent ↦ rw absent tt
    | inr (mediator_did, m) ↦ elim (Option-cases (env "PROFILE_CONFIG")) [
      | inl absent ↦ rw (m, absent) tt
      | inr (uri, u) ↦ elim (Result-cases (Loaders.load sources uri)) [
        | inr (problem, e) ↦ rw (m, u, e) tt
        | inl (text, l) ↦ elim (Result-cases (parse_profile_from_secrets_str text)) [
          | inr (problem, e) ↦ rw (m, u, l, e) tt
          | inl (profile, p) ↦
              elim (Result-cases (
                load_document show_index to_string parse_profile_from_secrets_str sources env
                  (env "DID_DOCUMENT") profile mediator_did)) [
                    | inr (problem, e) ↦ rw (m, u, l, p, e) tt
                    | inl (document, d) ↦
                        rw (m, u, l, p, d)
                          (record {
                            enabled = refl;
                            only_admin = refl;
                            admin = refl;
                            mediator = m;
                            document = d;
                          })
                  ]
        ]
      ]
    ]
  ]

  abbrev enabled_in : Result DidcommConfig String → Bool
  enabled_in (ok config) = config.is_enabled
  enabled_in (err problem) = false

  load_lem :
      (enabled : Bool)
      → (env_or env "ENABLE_DIDCOMM" "true" == "true") ≡ enabled
      → load show_index to_string parse_profile_from_secrets_str sources env ≡ (
          if enabled
          then load_enabled show_index to_string parse_profile_from_secrets_str sources env
          else ok default_config)
  unfolding load
  load_lem enabled e = rw e refl

  -- A configuration that is loaded with DIDComm enabled holds what the environment says.
  pub load-Loads :
      {config : DidcommConfig}
      → (env_or env "ENABLE_DIDCOMM" "true" == "true") ≡ true
      → load show_index to_string parse_profile_from_secrets_str sources env ≡ ok config
      → Loads config
  load-Loads e h = subst LoadsResult (sym (load_lem true e) ∙ h) load_enabled-LoadsResult

  -- A configuration is enabled just if the environment enables it.
  pub load-is_enabled :
      {config : DidcommConfig}
      → load show_index to_string parse_profile_from_secrets_str sources env ≡ ok config
      → config.is_enabled ≡ (env_or env "ENABLE_DIDCOMM" "true" == "true")
  load-is_enabled h = elim (Bool-cases (env_or env "ENABLE_DIDCOMM" "true" == "true")) [
    | inl e ↦ (load-Loads e h).enabled ∙ sym e
    | inr e ↦ sym (ap enabled_in (sym (load_lem false e) ∙ h)) ∙ sym e
  ]
