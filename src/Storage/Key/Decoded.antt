-- ===== src/Storage/Key/Decoded.antt =====
-- The registry that a store of encoded records under the texts of keys stands for.
use affinidi_trust_registry.Domain.TrustRecord.{TrustRecord}
use affinidi_trust_registry.Storage.Key.{RecordKey, key_eq, key_text, RecordKey-discrete}
use affinidi_trust_registry.Storage.Key.Separator.{is_plain, key_text_injective}
use affinidi_trust_registry.Storage.Registry.{Registry, assign}
use affinidi_trust_registry.Prelude.{
  String, ◌≡◌, true, Option, none, and_then, if◌then◌else◌, ◌==◌, string_eq, fun_ext, arith,
  Bool-cases, inl, inr, ap,
}

module _ {V : Type 0} (decode : V → Option TrustRecord) where
  -- At the keys whose text is theirs alone
  abbrev pub decoded : (String → Option V) → Registry
  decoded contents k = if is_plain k then and_then (contents (key_text k)) decode else none

  -- A write or a removal under the text of a key changes the registry at that key alone.
  pub decoded-change :
      (contents contents' : String → Option V) (k : RecordKey)
      → is_plain k ≡ true
      → (o : Option V) → ((j : String) → contents' j ≡ (if key_text k == j then o else contents j))
      → decoded contents' ≡ assign k (and_then o decode) (decoded contents)
  decoded-change contents contents' k plain o h = fun_ext λ j. elim (Bool-cases (is_plain j)) [
    | inl p ↦ elim (RecordKey-discrete k j) [
      | yes e ↦ ground (arith, h (key_text j), ap key_text e)
      | no n ↦ ground (arith, h (key_text j), key_text_injective k j plain p)
    ]
    | inr p ↦ ground arith
  ]
