-- ===== src/Storage/DynamoDb.antt =====
-- trust-registry/src/storage/adapters/ddb_storage.rs. The client of the AWS SDK, at the table of the
-- storage, and `serde_dynamo` on records are parameters; an error of either is the text that it
-- displays.
pub mod Laws
pub mod Refines
use affinidi_trust_registry.Domain.TrustRecord.{TrustRecord}
use affinidi_trust_registry.Storage.Repository.{
  TrustRecordQuery, TrustRecordList, RepositoryError, connection_failed, query_failed,
  serialization_failed, record_not_found, record_already_exists, Access, TrustRecordAdminRepository,
}
use affinidi_trust_registry.Storage.Key.{generate_key}
use affinidi_trust_registry.Prelude.Text.{contains_text}
use affinidi_trust_registry.Prelude.HashMap.{HashMap, insert}
use affinidi_trust_registry.Prelude.Outcome
use affinidi_trust_registry.Prelude.Effect.{Effect, lift, with_error, ◌>>=◌}
use affinidi_trust_registry.Prelude.{
  String, ◌<>◌, Option, none, some, unwrap_or, List, [], ◌∷◌, Result, ok, err, map_err, string_eq,
  if◌then◌else◌,
}

-- `AttributeValue` with its constructor for texts, and the requests; a condition is its expression.
pub record DynamoDbClient (W : Type 0) : Type 1 where
  pub AttributeValue : Type 0
  pub text_value : String → AttributeValue
  pub get_item :
      HashMap String AttributeValue → Effect W String (Option (HashMap String AttributeValue))
  pub put_item : HashMap String AttributeValue → (condition : String) → Effect W String (Unit {0})
  pub delete_item :
      HashMap String AttributeValue → (condition : String) → Effect W String (Unit {0})
  pub scan : Effect W String (Option (List (HashMap String AttributeValue)))

abbrev pub Item : {W : Type 0} → DynamoDbClient W → Type 0
Item client = HashMap String client.AttributeValue

-- `serde_dynamo::to_item` and `from_item` at `TrustRecord`
pub record ItemCodec {W : Type 0} (client : DynamoDbClient W) : Type 0 where
  pub to_item : TrustRecord → Result (Item client) String
  pub from_item : Item client → Result TrustRecord String

module _ {W : Type 0} (client : DynamoDbClient W) (codec : ItemCodec client) where
  -- An item with the two key attributes set
  abbrev pub with_key : String → Item client → Item client
  with_key key_value item =
      insert "SK" (client.text_value key_value) (insert "PK" (client.text_value key_value) item)

  unfoldable pub build_key : TrustRecordQuery → Item client
  build_key q = with_key (generate_key q.entity_id q.authority_id q.action q.resource) []

  abbrev decode : Item client → Result TrustRecord RepositoryError
  decode item = map_err serialization_failed (codec.from_item item)

  abbrev fetch : TrustRecordQuery → Access W (Option (Item client))
  fetch q =
      with_error (λ e. connection_failed ("Failed to fetch item from DynamoDB: " <> e))
        (client.get_item (build_key q))

  abbrev found : Option (Item client) → Result (Option TrustRecord) RepositoryError
  found none = ok none
  found (some item) = elim (decode item) [ ok r ↦ ok (some r) | err e ↦ err e ]

  abbrev found_or : RepositoryError → Option (Item client) → Result TrustRecord RepositoryError
  found_or missing none = err missing
  found_or missing (some item) = decode item

  unfoldable pub find_by_query : TrustRecordQuery → Access W (Option TrustRecord)
  unfolding build_key
  find_by_query q = do item ← fetch q; lift (found item)

  -- The `map_err` of a conditional request
  abbrev pub refused : RepositoryError → (prefix_text : String) → String → RepositoryError
  refused conditional prefix_text e =
      if contains_text "ConditionalCheckFailed" e
      then conditional
      else query_failed (prefix_text <> e)

  unfoldable pub create : TrustRecord → Access W (Unit {0})
  create r = do
    item ← lift (map_err serialization_failed (codec.to_item r))
    let key_value = generate_key r.entity_id r.authority_id r.action r.resource
    with_error
        (refused (record_already_exists ("Record already exists: " <> key_value))
          "Failed to create record: ")
        (client.put_item (with_key key_value item) "attribute_not_exists(PK)")

  unfoldable pub update : TrustRecord → Access W (Unit {0})
  update r = do
    item ← lift (map_err serialization_failed (codec.to_item r))
    let key_value = generate_key r.entity_id r.authority_id r.action r.resource
    with_error
        (refused (record_not_found ("Record not found: " <> key_value)) "Failed to update record: ")
        (client.put_item (with_key key_value item) "attribute_exists(PK)")

  unfoldable pub delete : TrustRecordQuery → Access W (Unit {0})
  unfolding build_key
  delete q =
      with_error
        (refused
          (record_not_found
            ("Record not found: " <> generate_key q.entity_id q.authority_id q.action q.resource))
          "Failed to delete record: ")
        (client.delete_item (build_key q) "attribute_exists(PK)")

  -- The loop over the items of a scan
  abbrev decode_all : List (Item client) → Result (List TrustRecord) RepositoryError
  decode_all [] = ok []
  decode_all (item ∷ items) =
      Outcome.◌>>=◌ (decode item) (λ r. Outcome.◌>>=◌ (decode_all items) (λ rs. ok (r ∷ rs)))

  -- One page of the table: the request for the next one is not made.
  unfoldable pub list : Access W TrustRecordList
  list = do
    items ← with_error (λ e. query_failed ("Failed to scan table: " <> e)) client.scan
    records ← lift (decode_all (unwrap_or items []))
    lift (ok (record { records = records }))

  unfoldable pub read : TrustRecordQuery → Access W TrustRecord
  unfolding build_key
  read q = do
    item ← fetch q
    lift (
        found_or
          (record_not_found
            ("Record not found: " <> generate_key q.entity_id q.authority_id q.action q.resource))
          item)

  abbrev pub dynamodb_repository : TrustRecordAdminRepository W
  dynamodb_repository = record {
    queries = record { find_by_query = find_by_query };
    create = create;
    update = update;
    delete = delete;
    list = list;
    read = read;
  }
