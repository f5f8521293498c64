-- ===== src/Client/UserConfig.antt =====
-- test-client/src/service_configs/mod.rs: the users of the client. Reading a file and the decoding
-- of its JSON are parameters.
use affinidi_trust_registry.Configs.Environment.{Environment}
use affinidi_trust_registry.Prelude.{String, List, Result, ◌>>=◌, unwrap_or}

pub record ServiceConfig (Secret : Type 0) : Type 0 where
  pub alias : String
  pub secrets : List Secret

module _ {Secret : Type 0} (read_to_string : String → Result String String)
    (from_str : String → Result (List (String × ServiceConfig Secret)) String) where
  unfoldable pub load_file : (path : String) → Result (List (String × ServiceConfig Secret)) String
  load_file path = read_to_string path >>= from_str

  unfoldable pub load_user_config :
      Environment → Result (List (String × ServiceConfig Secret)) String
  unfolding load_file
  load_user_config env = load_file (unwrap_or (env "SERVICE_CONFIG_PATH") "./conf/user_config.json")
