-- ===== src/Storage/Factory.antt =====
-- trust-registry/src/storage/factory.rs: the repository of the configured backend. Opening the
-- clients of DynamoDB and Redis are parameters, as is the file system at a path.
use affinidi_trust_registry.Configs.Storage.{
  StorageConfig, DynamoDbStorageConfig, TrustStorageBackend, csv, dynamodb, redis,
}
use affinidi_trust_registry.Storage.File.{FileSystem, Csv, FileStorage, try_new}
use affinidi_trust_registry.Storage.File.Row.{ContextText}
use affinidi_trust_registry.Prelude.{ℕ, String, Result, ok, ◌>>=◌}

-- Which adapter was opened, with its state
pub data Opened (F D R : Type 0) : Type 0 where
  file_storage : (update_interval_sec : ℕ) → FileStorage F → Opened F D R
  ddb_storage : D → Opened F D R
  redis_storage : R → Opened F D R

module _ {F D R : Type 0} (fs_at : String → FileSystem F) (rows : Csv) (codec : ContextText)
    (open_ddb : DynamoDbStorageConfig → Result D String) (open_redis : String → Result R String)
    (disk : F) where
  abbrev pub open_backend : StorageConfig → TrustStorageBackend → Result (Opened F D R) String
  open_backend config csv =
      try_new (fs_at config.file_storage_config.path) rows codec disk >>= λ storage.
      ok (file_storage config.file_storage_config.update_interval_sec storage)
  open_backend config dynamodb = open_ddb config.ddb_storage_config >>= λ ddb. ok (ddb_storage ddb)
  open_backend config redis =
      open_redis config.redis_storage_config.redis_url >>= λ client. ok (redis_storage client)

  unfoldable pub create : StorageConfig → Result (Opened F D R) String
  create config = open_backend config config.storage_backend

abbrev pub backend_opened : {F D R : Type 0} → Opened F D R → TrustStorageBackend
backend_opened (file_storage seconds storage) = csv
backend_opened (ddb_storage ddb) = dynamodb
backend_opened (redis_storage client) = redis
