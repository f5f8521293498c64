-- ===== src/Storage/Redis.antt =====
-- trust-registry/src/storage/adapters/redis_storage.rs. The client of the `redis` crate and the
-- text form of a record (`serde_json` on the derived instances) are parameters; an error of either
-- is the text that it displays.
pub mod Laws
pub mod Refines
pub mod Crossed
pub mod Listing
use affinidi_trust_registry.Domain.TrustRecord.{TrustRecord}
use affinidi_trust_registry.Storage.Repository.{
  TrustRecordQuery, TrustRecordList, RepositoryError, query_failed, serialization_failed,
  record_not_found, record_already_exists, Access, TrustRecordRepository,
  TrustRecordAdminRepository,
}
use affinidi_trust_registry.Storage.Key.{generate_key}
use affinidi_trust_registry.Prelude.Text.{nat_eq}
use affinidi_trust_registry.Prelude.Effect.{Effect, pure, raise, lift, with_error, ◌>>=◌}
use affinidi_trust_registry.Prelude.{
  ℕ, String, ◌<>◌, Bool, Option, none, some, List, [], ◌∷◌, ◌++◌, Result, ok, err, map_err, not,
  if◌then◌else◌,
}

-- The commands that the program sends, from a state of the server to its answer and the next state
pub record RedisConnection (W : Type 0) : Type 0 where
  pub get : String → Effect W String (Option String)
  pub exists : String → Effect W String Bool
  pub set : String → String → Effect W String (Unit {0})
  pub del : String → Effect W String ℕ
  pub keys : String → Effect W String (List String)

-- `serde_json::to_string` and `from_str` at `TrustRecord`
pub record RecordText : Type 0 where
  pub to_string : TrustRecord → Result String String
  pub from_str : String → Result TrustRecord String

unfoldable pub key_from_record : TrustRecord → String
key_from_record r = generate_key r.entity_id r.authority_id r.action r.resource

unfoldable pub key_from_query : TrustRecordQuery → String
key_from_query q = generate_key q.entity_id q.authority_id q.action q.resource

module _ {W : Type 0} (conn : RedisConnection W) (text : RecordText) where
  unfoldable pub serialize_record : TrustRecord → Result String RepositoryError
  serialize_record r =
      map_err (λ e. serialization_failed ("Failed to serialize record: " <> e)) (text.to_string r)

  unfoldable pub deserialize_record : String → Result TrustRecord RepositoryError
  deserialize_record t =
      map_err (λ e. serialization_failed ("Failed to deserialize record: " <> e)) (text.from_str t)

  abbrev redis_get : String → Access W (Option String)
  redis_get key = with_error (λ e. query_failed ("Redis GET failed: " <> e)) (conn.get key)

  abbrev redis_exists : String → Access W Bool
  redis_exists key = with_error (λ e. query_failed ("Redis EXISTS failed: " <> e)) (conn.exists key)

  abbrev redis_set : String → String → Access W (Unit {0})
  redis_set key t = with_error (λ e. query_failed ("Redis SET failed: " <> e)) (conn.set key t)

  -- the `match` on the answer to GET
  abbrev found : Option String → Result (Option TrustRecord) RepositoryError
  found none = ok none
  found (some t) = elim (deserialize_record t) [ ok r ↦ ok (some r) | err e ↦ err e ]

  abbrev found_or : RepositoryError → Option String → Result TrustRecord RepositoryError
  found_or missing none = err missing
  found_or missing (some t) = deserialize_record t

  unfoldable pub find_by_query : TrustRecordQuery → Access W (Option TrustRecord)
  unfolding key_from_query deserialize_record
  find_by_query q = do data_text ← redis_get (key_from_query q); lift (found data_text)

  unfoldable pub create : TrustRecord → Access W (Unit {0})
  unfolding key_from_record serialize_record
  create r = do
    let key = key_from_record r
    there ← redis_exists key
    if there
        then raise (
            record_already_exists (
              "Record already exists: "
              <> generate_key r.entity_id r.authority_id r.action r.resource))
        else do value ← lift (serialize_record r); redis_set key value

  unfoldable pub update : TrustRecord → Access W (Unit {0})
  unfolding key_from_record serialize_record
  update r = do
    let key = key_from_record r
    there ← redis_exists key
    if not there
        then raise (
            record_not_found
              ("Record not found: " <> generate_key r.entity_id r.authority_id r.action r.resource))
        else do value ← lift (serialize_record r); redis_set key value

  unfoldable pub delete : TrustRecordQuery → Access W (Unit {0})
  unfolding key_from_query
  delete q = do
    deleted ←
        with_error (λ e. query_failed ("Redis DEL failed: " <> e)) (conn.del (key_from_query q))
    if nat_eq deleted 0
        then raise (
            record_not_found
              ("Record not found: " <> generate_key q.entity_id q.authority_id q.action q.resource))
        else pure tt

  -- a text that cannot be read is logged and left out
  abbrev pub pushed : Option String → List TrustRecord → List TrustRecord
  pushed none records = records
  pushed (some t) records = elim (deserialize_record t) [
    | ok r ↦ records ++ r ∷ []
    | err e ↦ records
  ]

  -- the loop over the keys
  unfoldable pub collect : List String → List TrustRecord → Access W (List TrustRecord)
  unfolding deserialize_record
  collect [] records = pure records
  collect (key ∷ keys) records = do
    data_text ← redis_get key
    collect keys (pushed data_text records)

  unfoldable pub list : Access W TrustRecordList
  unfolding collect
  list = do
    keys ← with_error (λ e. query_failed ("Redis KEYS failed: " <> e)) (conn.keys "*|*|*|*")
    records ← collect keys []
    pure (record { records = records })

  unfoldable pub read : TrustRecordQuery → Access W TrustRecord
  unfolding key_from_query deserialize_record
  read q = do
    data_text ← redis_get (key_from_query q)
    lift (
        found_or
          (record_not_found
            ("Record not found: " <> generate_key q.entity_id q.authority_id q.action q.resource))
          data_text)

  abbrev pub redis_queries : TrustRecordRepository W
  redis_queries = record { find_by_query = find_by_query }

  abbrev pub redis_repository : TrustRecordAdminRepository W
  redis_repository = record {
    queries = redis_queries;
    create = create;
    update = update;
    delete = delete;
    list = list;
    read = read;
  }
