-- ===== src/Storage/DynamoDb/Refines.antt =====
-- The DynamoDB adapter against the registry, at the keys whose text is theirs alone. The adapter
-- tells a failed condition from other errors by a text that the SDK's error may or may not hold, so
-- which error it gives is left open.
use affinidi_trust_registry.Domain.TrustRecord.{TrustRecord}
use affinidi_trust_registry.Storage.Repository.{RepositoryError, Access, TrustRecordQuery}
use affinidi_trust_registry.Storage.Key.{RecordKey, key_text, from_record, from_query}
use affinidi_trust_registry.Storage.Key.Separator.{is_plain}
use affinidi_trust_registry.Storage.Key.Decoded.{decoded}
use affinidi_trust_registry.Storage.Registry.{
  Registry, find_in, create_in, update_in, delete_in, read_in,
}
use affinidi_trust_registry.Storage.DynamoDb.{
  DynamoDbClient, ItemCodec, Item, with_key, find_by_query, create, update, delete, read,
}
use affinidi_trust_registry.Storage.DynamoDb.Laws.{IsDynamoDb}
use affinidi_trust_registry.Prelude.{◌≡◌, Option, true, some, Result, ok, ok?}

module _ {W : Type 0} {client : DynamoDbClient W} {codec : ItemCodec client}
    (law : IsDynamoDb client codec) where
  abbrev decode : Item client → Option TrustRecord
  decode item = ok? (codec.from_item item)

  abbrev pub view : W → Registry
  view w = decoded decode (law.contents w)

  -- The table is reached, and what stands under the text of a key can be read.
  pub record IsValid (w : W) : Type 0 where
    pub online : law.IsOnline w
    pub readable :
        (k : RecordKey) (item : Item client)
        → is_plain k ≡ true
        → law.contents w (key_text k) ≡ some item
        → (r : TrustRecord) × (codec.from_item item ≡ ok r)

  -- The method succeeds exactly if its meaning does, with the same value, and leaves a valid table
  -- that stands for the registry that the meaning leaves.
  pub record Agrees {A : Type 0} (method : Access W A)
      (meaning : Registry → Result A RepositoryError × Registry) (w : W) : Type 0 where
    pub value : ok? (method w).0 ≡ ok? (meaning (view w)).0
    pub view_after : view (method w).1 ≡ (meaning (view w)).1
    pub valid_after : IsValid (method w).1

  -- What `create` and `update` put
  abbrev put : TrustRecord → Item client
  put r = with_key client codec (key_text (from_record r)) (law.written r)

  -- The five methods that speak of one key
  pub record AgreesAll : Type 0 where
    pub find :
        (q : TrustRecordQuery) (w : W)
        → is_plain (from_query q) ≡ true
        → IsValid w
        → law.IsSettled w
        → Agrees (find_by_query client codec q) (find_in q) w
    pub create :
        (r : TrustRecord) (w : W)
        → is_plain (from_record r) ≡ true
        → IsValid w
        → Agrees (create client codec r) (create_in r) w
    pub update :
        (r : TrustRecord) (w : W)
        → is_plain (from_record r) ≡ true
        → IsValid w
        → Agrees (update client codec r) (update_in r) w
    pub delete :
        (q : TrustRecordQuery) (w : W)
        → is_plain (from_query q) ≡ true
        → IsValid w
        → Agrees (delete client codec q) (delete_in q) w
    pub read :
        (q : TrustRecordQuery) (w : W)
        → is_plain (from_query q) ≡ true
        → IsValid w
        → law.IsSettled w
        → Agrees (read client codec q) (read_in q) w
