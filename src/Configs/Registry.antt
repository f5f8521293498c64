-- ===== src/Configs/Registry.antt =====
-- `TrsutRegistryConfig` of trust-registry/src/configs/mod.rs: the three configurations, loaded one
-- after the other.
use affinidi_trust_registry.Json.{Value}
use affinidi_trust_registry.Configs.Environment.{Environment}
use affinidi_trust_registry.Configs.Loaders.{Sources}
use affinidi_trust_registry.Configs.Storage as Storage
use affinidi_trust_registry.Configs.Storage.{StorageConfig}
use affinidi_trust_registry.Configs.Didcomm as Didcomm
use affinidi_trust_registry.Configs.Didcomm.{DidcommConfig}
use affinidi_trust_registry.Configs.Server as Server
use affinidi_trust_registry.Configs.Server.{ServerConfig}
use affinidi_trust_registry.Didcomm.DidDocument.{ProfileConfig}
use affinidi_trust_registry.Prelude.{
  ℕ, String, Result, ok, err, ◌>>=◌, ◌≡◌, refl, subst, Result-cases, inl, inr,
}

-- The source writes `TrsutRegistryConfig`.
pub record TrustRegistryConfig : Type 0 where
  pub server_config : ServerConfig
  pub storage_config : StorageConfig
  pub didcomm_config : DidcommConfig

module _ (show_index : ℕ → String) (to_string : Value → String)
    (parse_profile_from_secrets_str : String → Result ProfileConfig String)
    (parse_u64 : String → Result ℕ String) (sources : Sources) (env : Environment) where
  unfoldable pub load : Result TrustRegistryConfig String
  load = Storage.load parse_u64 env >>= λ storage_config.
      Didcomm.load show_index to_string parse_profile_from_secrets_str sources env
      >>= λ didcomm_config. ok (record {
        server_config = Server.load env;
        storage_config = storage_config;
        didcomm_config = didcomm_config;
      })

  pub record LoadsParts (config : TrustRegistryConfig) : Type 0 where
    pub storage : Storage.load parse_u64 env ≡ ok config.storage_config
    pub didcomm :
        Didcomm.load show_index to_string parse_profile_from_secrets_str sources env
        ≡ ok config.didcomm_config
    pub server : config.server_config ≡ Server.load env

  abbrev PartsResult : Result TrustRegistryConfig String → Type 0
  PartsResult (ok config) = LoadsParts config
  PartsResult (err problem) = Unit

  load-PartsResult : PartsResult load
  unfolding load
  load-PartsResult = elim (Result-cases (Storage.load parse_u64 env)) [
    | inr (problem, e) ↦ rw e tt
    | inl (storage, s) ↦
        elim (Result-cases
          (Didcomm.load show_index to_string parse_profile_from_secrets_str sources env)) [
            | inr (problem, e) ↦ rw (s, e) tt
            | inl (didcomm, d) ↦ rw (s, d) (record { storage = s; didcomm = d; server = refl })
          ]
  ]

  -- Each part of a loaded configuration is what its own `load` gives.
  pub load-LoadsParts : {config : TrustRegistryConfig} → load ≡ ok config → LoadsParts config
  load-LoadsParts h = subst PartsResult h load-PartsResult
