-- ===== src/Server/Starts.antt =====
-- What a service that runs was configured for.
use affinidi_trust_registry.Json.{Value}
use affinidi_trust_registry.Configs.Environment.{Environment, env_or}
use affinidi_trust_registry.Configs.Loaders.{Sources}
use affinidi_trust_registry.Configs.Storage.{
  DynamoDbStorageConfig, load_storage_backend, StorageConfig, TrustStorageBackend, csv, dynamodb,
  redis, Loaded, load-Loaded,
}
use affinidi_trust_registry.Configs.Didcomm.Loads.{load-is_enabled}
use affinidi_trust_registry.Configs.Registry.{TrustRegistryConfig, load, load-LoadsParts}
use affinidi_trust_registry.Didcomm.DidDocument.{ProfileConfig}
use affinidi_trust_registry.Storage.Factory.{Opened, create, backend_opened, open_backend}
use affinidi_trust_registry.Storage.File.{FileSystem, Csv}
use affinidi_trust_registry.Storage.File.Row.{ContextText}
use affinidi_trust_registry.Server.{Start, panicked, running, start_on, start}
use affinidi_trust_registry.Prelude.{
  ℕ, String, ◌≡◌, ◌⊎◌, refl, ◌∙◌, subst, false, Result, ok, is_ok, ◌==◌, string_eq, arith,
  Result-cases, inl, inr,
}

module _ {F D R : Type 0} (show_index : ℕ → String) (to_string : Value → String)
    (parse_profile_from_secrets_str : String → Result ProfileConfig String)
    (parse_u64 : String → Result ℕ String) (sources : Sources) (fs_at : String → FileSystem F)
    (rows : Csv) (codec : ContextText) (open_ddb : DynamoDbStorageConfig → Result D String)
    (open_redis : String → Result R String) where
  -- The service runs with the configuration that was loaded, on the backend that the environment
  -- names, and listens for messages just if the environment enables it; a service that does not start has opened no repository.
  abbrev pub Outcome : Environment → F → Start F D R → Type 0
  Outcome env disk (running config repository listens) =
      (load show_index to_string parse_profile_from_secrets_str parse_u64 sources env ≡ ok config)
      × (backend_opened repository ≡ load_storage_backend parse_u64 env)
      × (listens ≡ (env_or env "ENABLE_DIDCOMM" "true" == "true"))
      × (create fs_at rows codec open_ddb open_redis disk config.storage_config ≡ ok repository)
  Outcome env disk (panicked text) =
      (is_ok (load show_index to_string parse_profile_from_secrets_str parse_u64 sources env)
        ≡ false)
      ⊎ ((config : TrustRegistryConfig) × (load show_index to_string parse_profile_from_secrets_str
              parse_u64 sources env
            ≡ ok config)
          × (is_ok (create fs_at rows codec open_ddb open_redis disk config.storage_config)
              ≡ false))

  create-backend :
      (disk : F) (config : StorageConfig) (b : TrustStorageBackend) (repository : Opened F D R)
      → open_backend fs_at rows codec open_ddb open_redis disk config b ≡ ok repository
      → backend_opened repository ≡ b
  create-backend disk config csv repository e = ground arith
  create-backend disk config dynamodb repository e = ground arith
  create-backend disk config redis repository e = ground arith

  create-backend_opened :
      (disk : F) (config : StorageConfig) (repository : Opened F D R)
      → create fs_at rows codec open_ddb open_redis disk config ≡ ok repository
      → backend_opened repository ≡ config.storage_backend
  unfolding create
  create-backend_opened disk config repository e =
      create-backend disk config config.storage_backend repository e

  running-Outcome :
      (env : Environment) (disk : F) (config : TrustRegistryConfig)
      → load show_index to_string parse_profile_from_secrets_str parse_u64 sources env ≡ ok config
      → Outcome env disk (
          start_on show_index to_string parse_profile_from_secrets_str parse_u64 sources fs_at rows
            codec open_ddb open_redis config
            (create fs_at rows codec open_ddb open_redis disk config.storage_config))
  running-Outcome env disk config e =
      let parts =
        load-LoadsParts show_index to_string parse_profile_from_secrets_str parse_u64 sources env
          e in
      let loaded = subst (Loaded parse_u64 env) parts.storage (load-Loaded parse_u64 env) in
      elim (Result-cases (create fs_at rows codec open_ddb open_redis disk config.storage_config)) [
        | inr (problem, f) ↦ rw f (inr (config, e, rw f refl))
        | inl (repository, f) ↦ rw f (
          e,
          create-backend_opened disk config.storage_config repository f ∙ loaded.0.backend,
          load-is_enabled show_index to_string parse_profile_from_secrets_str sources env
              parts.didcomm,
          f,
        )
      ]

  -- A service that runs has loaded its configuration and opened its repository, of the backend that
  -- the environment names, and listens for messages just if ENABLE_DIDCOMM is absent or `true`; a
  -- service that panics before any task could not load its configuration, or loaded it and could not
  -- open the repository.
  pub start-Outcome :
      (env : Environment) (disk : F)
      → Outcome env disk (
          start show_index to_string parse_profile_from_secrets_str parse_u64 sources fs_at rows
            codec open_ddb open_redis env disk)
  unfolding start
  start-Outcome env disk =
      elim (Result-cases
        (load show_index to_string parse_profile_from_secrets_str parse_u64 sources env)) [
          | inr (problem, e) ↦ rw e (inl (rw e refl))
          | inl (config, e) ↦ rw e (running-Outcome env disk config e)
        ]
