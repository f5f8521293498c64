-- ===== src/Tests/Environment.antt =====
-- The storage configuration in an environment that asks for Redis.
use affinidi_trust_registry.Configs.Environment.{Environment}
use affinidi_trust_registry.Configs.Storage.{load, Loaded, load-Loaded}
use affinidi_trust_registry.Prelude.{
  ℕ, String, some, none, Result, ok, ◌==◌, string_eq, if◌then◌else◌,
}

abbrev env : Environment
env name =
    if name == "TR_STORAGE_BACKEND"
    then some "Redis"
    else if name == "REDIS_URL"
    then some "redis://localhost"
    else none

abbrev sixty : String → Result ℕ String
sixty t = ok 60

load-Loaded_example : Loaded sixty env (load sixty env)
load-Loaded_example = load-Loaded sixty env
