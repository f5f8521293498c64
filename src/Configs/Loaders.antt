-- ===== src/Configs/Loaders.antt =====
-- trust-registry/src/configs/loaders: the text that a configuration value stands for, chosen by its
-- prefix. Reading a file and the two clients of AWS are parameters.
use affinidi_trust_registry.Prelude.Text.{strip_prefix}
use affinidi_trust_registry.Prelude.{
  String, ◌<>◌, Option, none, some, Result, ok, map_err, ok_or, ◌>>=◌,
}

-- `fs::read_to_string`, `get_secret_value` and `get_parameter` (with decryption), each with the text
-- of its answer, if it has one
pub record Sources : Type 0 where
  pub read_to_string : String → Result String String
  pub get_secret_value : String → Result (Option String) String
  pub get_parameter : String → Result (Option String) String

abbrev pub load_string : String → Result String String
load_string content = ok content

module _ (sources : Sources) where
  unfoldable pub load_file_text : (path : String) → Result String String
  load_file_text path =
      map_err (λ e. "Failed to read file '" <> (path <> ("': " <> e))) (sources.read_to_string path)

  unfoldable pub load_secret : (secret_name : String) → Result String String
  load_secret secret_name =
      map_err (λ e. "Failed to get secret '" <> (secret_name <> ("': " <> e)))
        (sources.get_secret_value secret_name)
      >>= λ result. ok_or result ("Secret '" <> (secret_name <> "' has no string value"))

  unfoldable pub load_parameter : (param_name : String) → Result String String
  load_parameter param_name =
      map_err (λ e. "Failed to get parameter '" <> (param_name <> ("': " <> e)))
        (sources.get_parameter param_name)
      >>= λ result. ok_or result ("Parameter '" <> (param_name <> "' has no value"))

  abbrev or_load :
      Option String → (String → Result String String) → Result String String → Result String String
  or_load none f rest = rest
  or_load (some content) f rest = f content

  unfoldable pub load : (input : String) → Result String String
  load input = or_load (strip_prefix "string://" input) load_string (
      or_load (strip_prefix "file://" input) load_file_text (
        or_load (strip_prefix "aws_secrets://" input) load_secret (
          or_load (strip_prefix "aws_parameter_store://" input) load_parameter
            (load_string input))))
