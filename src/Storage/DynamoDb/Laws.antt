-- ===== src/Storage/DynamoDb/Laws.antt =====
-- What the DynamoDB adapter relies on. Reads are eventually consistent, as the adapter does not ask
-- for more: only when all earlier writes have reached every replica (`IsSettled`) an item is found
-- under the key that it was put with. A condition on the key is checked against all writes, and an item is read back as the record that it was made from,
-- whatever the two key attributes hold. Which text an error displays is left open.
use affinidi_trust_registry.Domain.TrustRecord.{TrustRecord}
use affinidi_trust_registry.Storage.DynamoDb.{DynamoDbClient, ItemCodec, Item, with_key}
use affinidi_trust_registry.Prelude.{
  String, ◌≡◌, Option, none, some, ok, err, ◌==◌, string_eq, if◌then◌else◌, [],
}

pub record IsDynamoDb {W : Type 0} (client : DynamoDbClient W) (codec : ItemCodec client)
    : Type 1 where
  pub contents : W → String → Option (Item client)
  pub IsOnline : W → Type 0
  pub after_put : String → Item client → W → W
  pub after_delete : String → W → W
  pub refusal : W → String
  pub IsSettled : W → Type 0
  pub get_settled :
      (k : String) (w : W)
      → IsOnline w
      → IsSettled w
      → client.get_item (with_key client codec k []) w ≡ (ok (contents w k), w)
  pub put_new :
      (k : String) (item : Item client) (w : W)
      → IsOnline w
      → client.put_item (with_key client codec k item) "attribute_not_exists(PK)" w
        ≡ elim (contents w k) [
          | none ↦ (ok tt, after_put k (with_key client codec k item) w)
          | some old ↦ (err (refusal w), w)
        ]
  pub put_old :
      (k : String) (item : Item client) (w : W)
      → IsOnline w
      → client.put_item (with_key client codec k item) "attribute_exists(PK)" w
        ≡ elim (contents w k) [
          | none ↦ (err (refusal w), w)
          | some old ↦ (ok tt, after_put k (with_key client codec k item) w)
        ]
  pub delete_old :
      (k : String) (w : W)
      → IsOnline w
      → client.delete_item (with_key client codec k []) "attribute_exists(PK)" w
        ≡ elim (contents w k) [ none ↦ (err (refusal w), w) | some old ↦ (ok tt, after_delete k w) ]
  pub contents_put :
      (k : String) (item : Item client) (j : String) (w : W)
      → contents (after_put k item w) j ≡ (if k == j then some item else contents w j)
  pub contents_delete :
      (k j : String) (w : W)
      → contents (after_delete k w) j ≡ (if k == j then none else contents w j)
  pub online_put :
      (k : String) (item : Item client) (w : W) → IsOnline w → IsOnline (after_put k item w)
  pub online_delete : (k : String) (w : W) → IsOnline w → IsOnline (after_delete k w)
  pub written : TrustRecord → Item client
  pub to_item_written : (r : TrustRecord) → codec.to_item r ≡ ok (written r)
  pub from_item_written :
      (k : String) (r : TrustRecord) → codec.from_item (with_key client codec k (written r)) ≡ ok r
