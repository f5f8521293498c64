-- ===== src/Setup/Did.antt =====
-- `create_did` of trust-registry/bin/setup_trust_registry.rs, which bin/generate_secrets.rs declares
-- alike: a new did:peer with two keys. Generating keys and the DID of keys and services are
-- parameters; what `unwrap` or `expect` meets an error at is an error here.
use Prim.Native.String as Text
use affinidi_trust_registry.Prelude.Effect.{Effect, pure, lift, ◌>>=◌}
use affinidi_trust_registry.Prelude.{
  ℕ, zero, suc, String, ◌<>◌, Bool, Option, none, some, List, [], ◌∷◌, ◌++◌, Result, ok, err,
  if◌then◌else◌,
}

pub data KeyType : Type 0 where
  p256 secp256k1 : KeyType

pub record Secret (K : Type 0) : Type 0 where
  pub id : String
  pub key : K

pub data Purpose : Type 0 where
  verification encryption : Purpose

pub record CreateKey : Type 0 where
  pub purpose : Purpose
  pub type_ : KeyType
  pub public_key_multibase : String

-- `Long(Map(Many(…)))` with the uris of its maps, all of them accepting `didcomm/v2` without routing
-- keys, or `Long(URI(…))`
pub data EndPoint : Type 0 where
  many : List String → EndPoint
  uri : String → EndPoint

pub record Service : Type 0 where
  pub id : Option String
  pub type_ : String
  pub end_point : EndPoint

pub record Peer (G K : Type 0) : Type 0 where
  pub generate : KeyType → Effect G String (String × Secret K)
  pub create_peer_did : List CreateKey → Option (List Service) → Effect G String String

-- `&text[n..]`, for the ASCII text of a DID; none past its end
abbrev slice_from : ℕ → String → Option String
slice_from zero s = some s
slice_from (suc n) Text.[] = none
slice_from (suc n) (Text.◌∷◌ c s) = slice_from n s

abbrev sliced : Option String → Result String String
sliced none = err "byte index is out of bounds"
sliced (some s) = ok s

abbrev auth_service_of : List String → Result Service String
auth_service_of [] = err "index out of bounds"
auth_service_of (url ∷ urls) = ok (record {
  id = some "#auth";
  type_ = "Authentication";
  end_point = uri (url <> "/authenticate");
})

abbrev message_services : List String → List Service
message_services urls = record { id = none; type_ = "dm"; end_point = many urls } ∷ []

abbrev with_auth : List String → Result Service String → Result (Option (List Service)) String
with_auth urls (err problem) = err problem
with_auth urls (ok auth) = ok (some (message_services urls ++ auth ∷ []))

-- The services of the DID: with `auth_service` the urls are unwrapped.
unfoldable pub services_of : Option (List String) → Bool → Result (Option (List Service)) String
services_of none auth_service =
    if auth_service then err "called `Option::unwrap()` on a `None` value" else ok none
services_of (some urls) auth_service =
    if auth_service
    then with_auth urls (auth_service_of urls)
    else ok (some (message_services urls))

module _ {G K : Type 0} (peer : Peer G K) where
  unfoldable pub create_did :
      Option (List String) → (auth_service : Bool) → Effect G String (String × List (Secret K))
  unfolding services_of
  create_did service auth_service = do
    encryption_key ← peer.generate secp256k1
    verification_key ← peer.generate p256
    verification_text ← lift (sliced (slice_from 8 verification_key.0))
    encryption_text ← lift (sliced (slice_from 8 encryption_key.0))
    services ← lift (services_of service auth_service)
    did_peer ←
        peer.create_peer_did
          (record { purpose = verification; type_ = p256; public_key_multibase = verification_text }
            ∷ record {
              purpose = encryption;
              type_ = secp256k1;
              public_key_multibase = encryption_text;
            }
            ∷ [])
          services
    pure (
      did_peer,
      record verification_key.1 { id = did_peer <> "#key-1" }
          ∷ record encryption_key.1 { id = did_peer <> "#key-2" }
          ∷ [],
    )
