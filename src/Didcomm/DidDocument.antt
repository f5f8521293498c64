-- ===== src/Didcomm/DidDocument.antt =====
-- trust-registry/src/didcomm/did_document.rs: the DID document of the service. A key of the SDK is
-- what the code matches on: its kind with the public parts that are read, and its id. How a number
-- and a JSON value are printed is a parameter.
use affinidi_trust_registry.Domain.Context.Merge.{get_path}
use affinidi_trust_registry.Json.{
  Value, Fields, str, obj, no_fields, fields, object, array, get_field, insert_field, get_key,
}
use affinidi_trust_registry.Prelude.{
  ℕ, suc, String, ◌<>◌, ◌≡◌, refl, ap, and_then, Option, none, some, List, [], ◌∷◌, map, string_eq,
  String-discrete,
}

pub data Params : Type 0 where
  ec : (curve x y : String) → Params
  okp : (curve x : String) → Params

pub record Jwk : Type 0 where
  pub params : Params
  pub key_id : Option String

pub data SecretMaterial : Type 0 where
  jwk : Jwk → SecretMaterial
  other : SecretMaterial

pub record ProfileConfig : Type 0 where
  pub did : String
  pub alias : String
  pub secrets : List SecretMaterial

abbrev with_kid : Option String → Fields → Fields
with_kid none jwk_obj = jwk_obj
with_kid (some kid) jwk_obj = insert_field "kid" (str kid) jwk_obj

abbrev public_fields : Params → Fields
public_fields (ec curve x y) =
    fields (("kty", str "EC") ∷ ("crv", str curve) ∷ ("x", str x) ∷ ("y", str y) ∷ [])
public_fields (okp curve x) = fields (("kty", str "OKP") ∷ ("crv", str curve) ∷ ("x", str x) ∷ [])

unfoldable pub build_public_jwk : Jwk → Value
build_public_jwk key = obj (with_kid key.key_id (public_fields key.params))

abbrev public_key : SecretMaterial → Value
public_key (jwk key) = build_public_jwk key
public_key other = obj no_fields

module _ (show_index : ℕ → String) where
  abbrev key_ref : String → ℕ → String
  key_ref did index = did <> "#key-" <> show_index index

  abbrev verification_method : String → ℕ → SecretMaterial → Value
  verification_method did index secret = object (
      ("id", str (key_ref did index))
      ∷ ("type", str "JsonWebKey2020")
      ∷ ("controller", str did)
      ∷ ("publicKeyJwk", public_key secret)
      ∷ [])

  -- `iter().enumerate().map(…)`, from the index of the first
  abbrev methods_from : String → ℕ → List SecretMaterial → List Value
  methods_from did index [] = []
  methods_from did index (secret ∷ secrets) =
      verification_method did index secret ∷ methods_from did (suc index) secrets

  unfoldable pub build_verification_methods : ProfileConfig → List Value
  build_verification_methods config = methods_from config.did 0 config.secrets

  -- `(0..n).map(…)`, from the first index
  abbrev refs_from : String → ℕ → List SecretMaterial → List String
  refs_from did index [] = []
  refs_from did index (secret ∷ secrets) = key_ref did index ∷ refs_from did (suc index) secrets

  -- The document, before `to_string`
  unfoldable pub did_document_value : ProfileConfig → (mediator_did : String) → Value
  unfolding build_verification_methods
  did_document_value config mediator_did =
      let key_refs = array (map str (refs_from config.did 0 config.secrets)) in
      object (
        (
          "@context",
          array (
              str "https://www.w3.org/ns/did/v1"
              ∷ str "https://w3id.org/security/suites/jws-2020/v1"
              ∷ []),
        )
        ∷ ("id", str config.did)
        ∷ ("verificationMethod", array (build_verification_methods config))
        ∷ ("authentication", key_refs)
        ∷ ("assertionMethod", key_refs)
        ∷ ("keyAgreement", key_refs)
        ∷ (
          "service",
          array (
              object (
                ("id", str (config.did <> "#didcomm"))
                ∷ ("type", str "DIDCommMessaging")
                ∷ (
                  "serviceEndpoint",
                  object (
                      ("uri", str mediator_did)
                      ∷ ("accept", array (str "didcomm/v2" ∷ []))
                      ∷ ("routingKeys", array [])
                      ∷ []),
                )
                ∷ [])
              ∷ []),
        )
        ∷ [])

  unfoldable pub build_did_document :
      (to_string : Value → String) → ProfileConfig → (mediator_did : String) → String
  unfolding did_document_value
  build_did_document to_string config mediator_did =
      to_string (did_document_value config mediator_did)

  -- Each method names its key by one reference, and shows no private part of the key.
  pub record Describes (method : Value) (ref : String) : Type 0 where
    pub named : get_key "id" method ≡ some (str ref)
    pub hidden : get_path ("publicKeyJwk" ∷ "d" ∷ []) method ≡ none

  abbrev pub DescribeAll : List Value → List String → Type 0
  DescribeAll [] [] = Unit
  DescribeAll (m ∷ ms) (r ∷ rs) = Describes m r × DescribeAll ms rs
  DescribeAll _ _ = ⊥

  -- The document lists the methods, all three uses name the same keys, and these are the methods'
  -- keys in their order.
  pub record Consistent (document : Value) : Type 0 where
    pub methods : List Value
    pub refs : List String
    pub listed : get_key "verificationMethod" document ≡ some (array methods)
    pub authentication : get_key "authentication" document ≡ some (array (map str refs))
    pub assertion : get_key "assertionMethod" document ≡ some (array (map str refs))
    pub agreement : get_key "keyAgreement" document ≡ some (array (map str refs))
    pub described : DescribeAll methods refs

  with_kid-hidden :
      (params : Params) (kid : Option String)
      → get_field "d" (with_kid kid (public_fields params)) ≡ none
  unfolding get_field insert_field String-discrete
  with_kid-hidden (ec curve x y) none = refl
  with_kid-hidden (ec curve x y) (some kid) = refl
  with_kid-hidden (okp curve x) none = refl
  with_kid-hidden (okp curve x) (some kid) = refl

  public_key-hidden : (secret : SecretMaterial) → get_key "d" (public_key secret) ≡ none
  unfolding get_key build_public_jwk
  public_key-hidden other = refl
  public_key-hidden (jwk key) = with_kid-hidden key.params key.key_id

  methods_from-DescribeAll :
      (did : String) (index : ℕ) (secrets : List SecretMaterial)
      → DescribeAll (methods_from did index secrets) (refs_from did index secrets)
  unfolding get_path get_key String-discrete
  methods_from-DescribeAll did index [] = tt
  methods_from-DescribeAll did index (secret ∷ secrets) = (
    record { named = refl; hidden = ap (λ o. and_then o some) (public_key-hidden secret) },
    methods_from-DescribeAll did (suc index) secrets,
  )

  -- In the DID document of any profile, the three uses of keys name the same references, these are
  -- the ids of the listed verification methods in their order, and no verification method has a
  -- private part `d` of its key.
  pub did_document_value-Consistent :
      (config : ProfileConfig) (mediator_did : String)
      → Consistent (did_document_value config mediator_did)
  unfolding did_document_value get_key String-discrete
  did_document_value-Consistent config mediator_did = record {
    methods = build_verification_methods config;
    refs = refs_from config.did 0 config.secrets;
    listed = refl;
    authentication = refl;
    assertion = refl;
    agreement = refl;
    described = methods_from-DescribeAll config.did 0 config.secrets;
  }
