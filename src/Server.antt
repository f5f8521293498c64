-- ===== src/Server.antt =====
-- trust-registry/src/server.rs: the start of the service. What is logged and the tasks themselves
-- are left out: a task that was started runs until the process ends.
pub mod Starts
pub mod Cors
use affinidi_trust_registry.Json.{Value}
use affinidi_trust_registry.Configs.Environment.{Environment}
use affinidi_trust_registry.Configs.Loaders.{Sources}
use affinidi_trust_registry.Configs.Storage.{DynamoDbStorageConfig}
use affinidi_trust_registry.Configs.Registry.{TrustRegistryConfig, load}
use affinidi_trust_registry.Didcomm.DidDocument.{ProfileConfig}
use affinidi_trust_registry.Storage.Factory.{Opened, create}
use affinidi_trust_registry.Storage.File.{FileSystem, Csv}
use affinidi_trust_registry.Storage.File.Row.{ContextText}
use affinidi_trust_registry.Prelude.{
  ℕ, String, ◌<>◌, Bool, true, false, ◌&&◌, if◌then◌else◌, Option, none, some, List, [], ◌∷◌,
  Result, ok, err, ◌==◌, string_eq,
}

-- `CorsLayer::permissive()`, or a layer with these origins and any method and header
pub data CorsLayer (Origin : Type 0) : Type 0 where
  permissive : CorsLayer Origin
  restricted : List Origin → CorsLayer Origin

-- Parsing a header value, and whether `allow_origin` of tower_http panics on a list, are parameters.
module _ {Origin : Type 0} (parse : String → Option Origin) (panics : List Origin → Bool) where
  abbrev pub add_origin : Option Origin → List Origin → List Origin
  add_origin none origins = origins
  add_origin (some origin) origins = origin ∷ origins

  -- `filter_map(|origin| origin.parse().ok())`
  abbrev pub parsed_origins : List String → List Origin
  parsed_origins [] = []
  parsed_origins (origin ∷ origins) = add_origin (parse origin) (parsed_origins origins)

  -- `CorsLayer::new().allow_origin(origins)`, with any method and header; a panic is an error.
  unfoldable pub allow_origin : List Origin → Result (CorsLayer Origin) String
  allow_origin origins =
      if panics origins
      then err "Wildcard origin (`*`) cannot be passed to `AllowOrigin::list`"
      else ok (restricted origins)

  unfoldable pub build_cors_layer :
      (allowed_origins : List String) → Result (CorsLayer Origin) String
  unfolding allow_origin
  build_cors_layer [] = ok permissive
  build_cors_layer (origin ∷ []) =
      if origin == "*" then ok permissive else allow_origin (parsed_origins (origin ∷ []))
  build_cors_layer (origin ∷ other ∷ origins) =
      allow_origin (parsed_origins (origin ∷ other ∷ origins))

-- What `start` comes to: a panic before any task, or the HTTP server on a repository, with or
-- without the DIDComm listener, until one of them ends and the process exits with code 1
pub data Start (F D R : Type 0) : Type 0 where
  panicked : (text : String) → Start F D R
  running : TrustRegistryConfig → Opened F D R → (listens : Bool) → Start F D R

module _ {F D R : Type 0} (show_index : ℕ → String) (to_string : Value → String)
    (parse_profile_from_secrets_str : String → Result ProfileConfig String)
    (parse_u64 : String → Result ℕ String) (sources : Sources) (fs_at : String → FileSystem F)
    (rows : Csv) (codec : ContextText) (open_ddb : DynamoDbStorageConfig → Result D String)
    (open_redis : String → Result R String) where
  abbrev pub start_on : TrustRegistryConfig → Result (Opened F D R) String → Start F D R
  start_on config (err e) = panicked ("Failed to initialize trust record repository: " <> e)
  start_on config (ok repository) = running config repository config.didcomm_config.is_enabled

  abbrev start_with : Result TrustRegistryConfig String → F → Start F D R
  start_with (err e) disk = panicked "Failed to load configs"
  start_with (ok config) disk =
      start_on config (create fs_at rows codec open_ddb open_redis disk config.storage_config)

  -- `env` is the environment after `dotenv`.
  unfoldable pub start : Environment → F → Start F D R
  start env disk =
      start_with (load show_index to_string parse_profile_from_secrets_str parse_u64 sources env)
        disk
