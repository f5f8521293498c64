-- ===== src/Tests/Identity.antt =====
-- The DID document of a profile.
use affinidi_trust_registry.Didcomm.DidDocument.{
  ProfileConfig, Consistent, did_document_value, ec, jwk, did_document_value-Consistent,
}
use affinidi_trust_registry.Prelude.{ℕ, zero, suc, String, none, some, [], ◌∷◌}

abbrev show_index : ℕ → String
show_index zero = "0"
show_index (suc n) = "1"

abbrev config : ProfileConfig
config = record {
  did = "did:registry";
  alias = "registry";
  secrets =
      jwk (record { params = ec "P-256" "x" "y"; key_id = some "key" })
      ∷ jwk (record { params = ec "P-256" "v" "w"; key_id = none })
      ∷ [];
}

did_document_value-Consistent_example :
    Consistent show_index (did_document_value show_index config "did:mediator")
did_document_value-Consistent_example =
    did_document_value-Consistent show_index config "did:mediator"
