-- ===== src/Configs/Environment.antt =====
-- trust-registry/src/configs/loaders/environment.rs. The environment is a function from names to
-- values; a value that is not Unicode counts as none, as `.ok()` makes it.
use affinidi_trust_registry.Prelude.{String, ◌<>◌, Option, unwrap_or, Result, ok_or}

abbrev pub Environment : Type 0
Environment = String → Option String

module _ (env : Environment) where
  unfoldable pub required_env : String → Result String String
  required_env env_name =
      ok_or (env env_name) ("Required environment variable '" <> env_name <> "' is not set")

  unfoldable pub optional_env : String → Option String
  optional_env env_name = env env_name

  unfoldable pub env_or : String → (default_text : String) → String
  unfolding optional_env
  env_or env_name default_text = unwrap_or (optional_env env_name) default_text
