-- ===== src/Http/Routes.antt =====
-- trust-registry/src/http/handlers/mod.rs and the health route of server.rs: the routes of the HTTP
-- server. A router is the list of its routes; `merge` puts two together, and `nest` puts a prefix
-- before each path, as axum does.

use affinidi_trust_registry.Prelude.{
  String, ◌<>◌, ◌||◌, if◌then◌else◌, List, [], ◌∷◌, ◌==◌, string_eq,
}

pub data Method : Type 0 where
  get post : Method

pub data Endpoint : Type 0 where
  health handle_trqp_authorization handle_trqp_recognition handle_wellknown_did_json : Endpoint

pub record Route : Type 0 where
  pub path : String
  pub method : Method
  pub endpoint : Endpoint

abbrev nest : String → List Route → List Route
nest prefix [] = []
nest prefix (route ∷ routes) = record route { path = prefix <> route.path } ∷ nest prefix routes

abbrev pub all_handlers : List Route
all_handlers =
    record { path = "/authorization"; method = post; endpoint = handle_trqp_authorization }
    ∷ record { path = "/recognition"; method = post; endpoint = handle_trqp_recognition }
    ∷ record { path = "/.well-known/did.json"; method = get; endpoint = handle_wellknown_did_json }
    ∷ []

unfoldable pub application_routes : (api_prefix : String) → List Route
application_routes api_prefix =
    if api_prefix == "" || api_prefix == "/" then all_handlers else nest api_prefix all_handlers

-- The routes that `start_http_server` serves
unfoldable pub main_router : List Route
unfolding application_routes
main_router = record { path = "/health"; method = get; endpoint = health } ∷ application_routes ""
