-- ===== src/Setup/Document.antt =====
-- The DID document and the secrets that `setup_did_web_tr` of
-- trust-registry/bin/setup_trust_registry.rs makes for a hosted DID. A document is seen as far as
-- the tool fills it; a parsed URL is the text that it prints as.
use affinidi_trust_registry.Json.{Value, str, object, arr, item, no_items}
use affinidi_trust_registry.Setup.Did.{Secret}
use affinidi_trust_registry.Prelude.HashMap.{HashMap, insert}
use affinidi_trust_registry.Prelude.{
  String, ◌<>◌, Option, none, some, List, [], ◌∷◌, ◌++◌, Result, ok, ◌>>=◌, string_eq,
}

pub record VerificationMethod : Type 0 where
  pub id : String
  pub type_ : String
  pub controller : String
  pub property_set : HashMap String Value

pub record Service : Type 0 where
  pub id : Option String
  pub type_ : List String
  pub property_set : HashMap String Value
  pub service_endpoint : Value

-- The three uses of keys are references to methods.
pub record Document : Type 0 where
  pub id : String
  pub verification_method : List VerificationMethod
  pub assertion_method : List String
  pub authentication : List String
  pub key_agreement : List String
  pub service : List Service

-- `Url::parse`, and the id that `Document::new` gives an empty document
pub record Urls : Type 0 where
  pub parse : String → Result String String
  pub document_id : String → Result String String

-- `json!([{"accept": ["didcomm/v2"], "uri": uri}])`
abbrev endpoint : String → Value
endpoint uri = arr (
    item (object (("accept", arr (item (str "didcomm/v2") no_items)) ∷ ("uri", str uri) ∷ []))
      no_items)

abbrev multikey :
    (id controller : String) → (property_set : HashMap String Value) → VerificationMethod
multikey id controller property_set = record {
  id = id;
  type_ = "Multikey";
  controller = controller;
  property_set = property_set;
}

abbrev typed_service : (id type_ uri : String) → Service
typed_service id type_ uri = record {
  id = some id;
  type_ = type_ ∷ [];
  property_set = [];
  service_endpoint = endpoint uri;
}

-- The document for the two public keys
unfoldable pub document_of :
    Urls → (did verification_key encryption_key mediator_url : String) → Result Document String
document_of urls did verification_key encryption_key mediator_url = do
  id ← urls.document_id did
  v_key_id ← urls.parse (did <> "#key-1")
  v_controller ← urls.parse did
  e_key_id ← urls.parse (did <> "#key-2")
  e_controller ← urls.parse did
  service_id ← urls.parse (did <> "#service")
  auth_id ← urls.parse (did <> "#auth")
  ok (record {
    id = id;
    verification_method =
        multikey v_key_id v_controller (insert "publicKeyMultibase" (str verification_key) [])
        ∷ multikey e_key_id e_controller (
            insert "publicKeyMultibase" (str encryption_key)
              (insert "publicKeyMultibase" (str verification_key) []))
        ∷ [];
    assertion_method = v_key_id ∷ [];
    authentication = v_key_id ∷ [];
    key_agreement = e_key_id ∷ [];
    service =
        typed_service service_id "DIDCommMessaging" mediator_url
        ∷ typed_service auth_id "Authentication" (mediator_url <> "/authenticate")
        ∷ [];
  })

-- The JWK of a key, if it is kept as one, and
-- reading a secret from JSON.
pub record Jwks (K : Type 0) : Type 0 where
  pub jwk : K → Option Value
  pub from_value : Value → Result (Secret K) String

abbrev pub jwk_value : String → Value → Value
jwk_value id jwk =
    object (("id", str id) ∷ ("type", str "JsonWebKey2020") ∷ ("privateKeyJwk", jwk) ∷ [])

module _ {K : Type 0} (jwks : Jwks K) where
  abbrev pub jwk_secret : (id : String) → Option Value → Result (List (Secret K)) String
  jwk_secret id none = ok []
  jwk_secret id (some jwk) = jwks.from_value (jwk_value id jwk) >>= λ secret. ok (secret ∷ [])

  unfoldable pub secrets_of :
      (did : String) → (verification_key encryption_key : K) → Result (List (Secret K)) String
  secrets_of did verification_key encryption_key = do
    verification ← jwk_secret (did <> "#key-1") (jwks.jwk verification_key)
    encryption ← jwk_secret (did <> "#key-2") (jwks.jwk encryption_key)
    ok (verification ++ encryption)
