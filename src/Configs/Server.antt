-- ===== src/Configs/Server.antt =====
-- trust-registry/src/configs/server.rs.
use affinidi_trust_registry.Configs.Environment.{Environment, optional_env, env_or}
use affinidi_trust_registry.Prelude.Text.{split, trim}
use affinidi_trust_registry.Prelude.Text.Laws.{lacks}
use affinidi_trust_registry.Prelude.Text.Trim.{lacks-trim, trim-trim, split-lacks}
use affinidi_trust_registry.Prelude.{
  String, true, false, unwrap_or, List, [], ◌∷◌, map, ◌==◌, string_eq, ◌≡◌, if◌then◌else◌, All,
  Bool-cases, inl, inr,
}

pub record ServerConfig : Type 0 where
  pub listen_address : String
  pub cors_allowed_origins : List String

abbrev pub default_listen_address : String
default_listen_address = "0.0.0.0:3232"

-- `filter(|s| !s.is_empty())`
abbrev pub filled : List String → List String
filled [] = []
filled (s ∷ ss) = let rest = filled ss in if s == "" then rest else s ∷ rest

unfoldable pub load : Environment → ServerConfig
load env = record {
  listen_address = env_or env "LISTEN_ADDRESS" default_listen_address;
  cors_allowed_origins =
      filled (map trim (split b',' (unwrap_or (optional_env env "CORS_ALLOWED_ORIGINS") "")));
}

-- An origin that is not empty, has no white space around it and holds no comma
pub record IsOrigin (origin : String) : Type 0 where
  pub not_empty : (origin == "") ≡ false
  pub trimmed : trim origin ≡ origin
  pub single : lacks b',' origin ≡ true

filled-IsOrigin :
    (pieces : List String)
    → All (λ piece. lacks b',' piece ≡ true) pieces
    → All IsOrigin (filled (map trim pieces))
filled-IsOrigin [] h = tt
filled-IsOrigin (piece ∷ pieces) (l, h) = elim (Bool-cases (trim piece == "")) [
  | inl empty ↦ rw empty (filled-IsOrigin pieces h)
  | inr filled_in ↦ rw filled_in (
    record { not_empty = filled_in; trimmed = trim-trim piece; single = lacks-trim b',' piece l },
    filled-IsOrigin pieces h,
  )
]

-- Every origin of the loaded configuration is not empty, has no white space around it and holds no
-- comma, whatever the environment says.
pub load-IsOrigin : (env : Environment) → All IsOrigin (load env).cors_allowed_origins
unfolding load
load-IsOrigin env =
    filled-IsOrigin _ (split-lacks b',' (unwrap_or (optional_env env "CORS_ALLOWED_ORIGINS") ""))
