-- ===== src/Configs/Storage.antt =====
-- trust-registry/src/configs/storage.rs: the choice of the storage backend and the configuration of
-- each. `parse::<u64>` is a parameter.
use affinidi_trust_registry.Configs.Environment.{Environment, required_env, optional_env, env_or}
use affinidi_trust_registry.Prelude.Text.{lowercase_is}
use affinidi_trust_registry.Prelude.{
  ℕ, String, Bool, true, false, ◌||◌, Option, none, some, or_else, Result, ok, err, ◌>>=◌,
  if◌then◌else◌, ◌≡◌, arith, Result-cases, Option-cases, inl, inr, refl, is_ok, is_some, ◌&&◌, ◌⊎◌,
  unwrap_or, Bool-cases,
}

pub data TrustStorageBackend : Type 0 where
  csv dynamodb redis : TrustStorageBackend

pub record FileStorageConfig : Type 0 where
  pub is_enabled : Bool
  pub path : String
  pub update_interval_sec : ℕ

pub record DynamoDbStorageConfig : Type 0 where
  pub is_enabled : Bool
  pub table_name : String
  pub region : Option String
  pub profile : Option String
  pub endpoint_url : Option String

pub record RedisStorageConfig : Type 0 where
  pub is_enabled : Bool
  pub redis_url : String

pub record StorageConfig : Type 0 where
  pub ddb_storage_config : DynamoDbStorageConfig
  pub file_storage_config : FileStorageConfig
  pub redis_storage_config : RedisStorageConfig
  pub storage_backend : TrustStorageBackend

-- The comparisons of a backend with one of the three
abbrev pub is_csv : TrustStorageBackend → Bool
is_csv csv = true
is_csv _ = false

abbrev pub is_dynamodb : TrustStorageBackend → Bool
is_dynamodb dynamodb = true
is_dynamodb _ = false

abbrev pub is_redis : TrustStorageBackend → Bool
is_redis redis = true
is_redis _ = false

module _ (parse_u64 : String → Result ℕ String) (env : Environment) where
  unfoldable pub load_storage_backend : TrustStorageBackend
  unfolding env_or lowercase_is
  load_storage_backend =
      let storage_backend_str = env_or env "TR_STORAGE_BACKEND" "csv" in
      if lowercase_is storage_backend_str "dynamodb" || lowercase_is storage_backend_str "ddb"
      then dynamodb
      else if lowercase_is storage_backend_str "redis"
      then redis
      else csv

  -- The three `load`s, at the backend that `load_storage_backend` gives
  unfoldable pub load_file : TrustStorageBackend → Result FileStorageConfig String
  unfolding env_or
  load_file csv = parse_u64 (env_or env "FILE_STORAGE_UPDATE_INTERVAL_SEC" "60") >>= λ seconds.
      ok (record {
        is_enabled = true;
        path = env_or env "FILE_STORAGE_PATH" "trust_records.csv";
        update_interval_sec = seconds;
      })
  load_file _ = ok (record { is_enabled = false; path = ""; update_interval_sec = 0 })

  unfoldable pub load_dynamodb : TrustStorageBackend → Result DynamoDbStorageConfig String
  unfolding env_or required_env optional_env
  load_dynamodb dynamodb = required_env env "DDB_TABLE_NAME" >>= λ table_name. ok (record {
    is_enabled = true;
    table_name = table_name;
    region = some (env_or env "AWS_REGION" "ap-southeast-1");
    profile = optional_env env "AWS_PROFILE";
    endpoint_url = or_else (optional_env env "AWS_ENDPOINT") (optional_env env "DYNAMODB_ENDPOINT");
  })
  load_dynamodb _ = ok (record {
    is_enabled = false;
    table_name = "";
    region = none;
    profile = none;
    endpoint_url = none;
  })

  unfoldable pub load_redis : TrustStorageBackend → Result RedisStorageConfig String
  unfolding required_env
  load_redis redis = required_env env "REDIS_URL" >>= λ redis_url.
      ok (record { is_enabled = true; redis_url = redis_url })
  load_redis _ = ok (record { is_enabled = false; redis_url = "" })

  -- `load` of `StorageConfig`
  unfoldable pub load : Result StorageConfig String
  load = load_dynamodb load_storage_backend >>= λ ddb. load_file load_storage_backend >>= λ file.
      load_redis load_storage_backend >>= λ rds. ok (record {
        ddb_storage_config = ddb;
        file_storage_config = file;
        redis_storage_config = rds;
        storage_backend = load_storage_backend;
      })

  -- The backend that a text names
  abbrev Names : String → TrustStorageBackend → Type 0
  Names text csv =
      (lowercase_is text "dynamodb" ≡ false)
      × (lowercase_is text "ddb" ≡ false)
      × (lowercase_is text "redis" ≡ false)
  Names text dynamodb = (lowercase_is text "dynamodb" ≡ true) ⊎ (lowercase_is text "ddb" ≡ true)
  Names text redis = lowercase_is text "redis" ≡ true

  -- The backend is the one that is named, and `csv` where none is given; exactly its configuration is
  -- enabled, and the path of its file has a default.
  pub record EnablesBackend (config : StorageConfig) : Type 0 where
    pub backend : config.storage_backend ≡ load_storage_backend
    pub named : Names (unwrap_or (env "TR_STORAGE_BACKEND") "csv") config.storage_backend
    pub path :
        config.storage_backend ≡ csv
        → config.file_storage_config.path ≡ unwrap_or (env "FILE_STORAGE_PATH") "trust_records.csv"
    pub file : config.file_storage_config.is_enabled ≡ is_csv config.storage_backend
    pub ddb : config.ddb_storage_config.is_enabled ≡ is_dynamodb config.storage_backend
    pub redis_enabled : config.redis_storage_config.is_enabled ≡ is_redis config.storage_backend

  load_file_lem :
      (b : TrustStorageBackend) (c : FileStorageConfig)
      → load_file b ≡ ok c
      → c.is_enabled ≡ is_csv b
  unfolding load_file
  load_file_lem csv c e = ground arith
  load_file_lem dynamodb c e = ground arith
  load_file_lem redis c e = ground arith

  load_file_path :
      (b : TrustStorageBackend) (c : FileStorageConfig)
      → load_file b ≡ ok c
      → b ≡ csv
      → c.path ≡ unwrap_or (env "FILE_STORAGE_PATH") "trust_records.csv"
  unfolding load_file env_or
  load_file_path csv c e h = ground arith
  load_file_path dynamodb c e h = absurd (let x : ⊥ = cc in x)
  load_file_path redis c e h = absurd (let x : ⊥ = cc in x)

  load_storage_backend-Names :
      Names (unwrap_or (env "TR_STORAGE_BACKEND") "csv") load_storage_backend
  unfolding load_storage_backend env_or
  load_storage_backend-Names =
      let text = unwrap_or (env "TR_STORAGE_BACKEND") "csv" in
      elim (Bool-cases (lowercase_is text "dynamodb")) [
        | inl e ↦ rw e (inl e)
        | inr e ↦ elim (Bool-cases (lowercase_is text "ddb")) [
          | inl e' ↦ rw (e, e') (inr e')
          | inr e' ↦ elim (Bool-cases (lowercase_is text "redis")) [
            | inl e'' ↦ rw (e, e', e'') e''
            | inr e'' ↦ rw (e, e', e'') (e, e', e'')
          ]
        ]
      ]

  load_dynamodb_lem :
      (b : TrustStorageBackend) (c : DynamoDbStorageConfig)
      → load_dynamodb b ≡ ok c
      → c.is_enabled ≡ is_dynamodb b
  unfolding load_dynamodb
  load_dynamodb_lem csv c e = ground arith
  load_dynamodb_lem dynamodb c e = ground arith
  load_dynamodb_lem redis c e = ground arith

  load_redis_lem :
      (b : TrustStorageBackend) (c : RedisStorageConfig)
      → load_redis b ≡ ok c
      → c.is_enabled ≡ is_redis b
  unfolding load_redis
  load_redis_lem csv c e = ground arith
  load_redis_lem dynamodb c e = ground arith
  load_redis_lem redis c e = ground arith

  -- What the backend needs of the environment is there.
  abbrev pub is_configured : TrustStorageBackend → Bool
  is_configured csv = is_ok (parse_u64 (env_or env "FILE_STORAGE_UPDATE_INTERVAL_SEC" "60"))
  is_configured dynamodb = is_some (env "DDB_TABLE_NAME")
  is_configured redis = is_some (env "REDIS_URL")

  abbrev pub Loaded : Result StorageConfig String → Type 0
  Loaded (ok config) = EnablesBackend config × (is_configured load_storage_backend ≡ true)
  Loaded (err e) = is_configured load_storage_backend ≡ false

  configured :
      (b : TrustStorageBackend)
      → is_configured b ≡ (is_ok (load_dynamodb b) && is_ok (load_file b) && is_ok (load_redis b))
  unfolding load_file load_dynamodb load_redis
  configured csv =
      elim (Result-cases (parse_u64 (env_or env "FILE_STORAGE_UPDATE_INTERVAL_SEC" "60"))) [
        | inl (n, e) ↦ rw e refl
        | inr (p, e) ↦ rw e refl
      ]
  configured dynamodb = elim (Option-cases (env "DDB_TABLE_NAME")) [
    | inl absent ↦ rw absent refl
    | inr (t, there) ↦ rw there refl
  ]
  configured redis = elim (Option-cases (env "REDIS_URL")) [
    | inl absent ↦ rw absent refl
    | inr (t, there) ↦ rw there refl
  ]

  -- Loading the storage configuration succeeds exactly in these cases: for CSV, which is also the
  -- backend where TR_STORAGE_BACKEND names none, the interval is absent or a number of seconds, and a
  -- path need not be given; for DynamoDB the name of the table is given; for Redis the URL. Then
  -- the configuration names the backend, a path that is not given is `trust_records.csv`, and of the
  -- three parts just that of the backend is enabled.
  pub load-Loaded : Loaded load
  unfolding load
  load-Loaded =
      let b = load_storage_backend in
      elim (Result-cases (load_dynamodb b)) [
        | inr (p, e) ↦ rw e (rw (configured b, e) refl)
        | inl (d, e) ↦ elim (Result-cases (load_file b)) [
          | inr (p, e') ↦ rw (e, e') (rw (configured b, e, e') refl)
          | inl (f, e') ↦ elim (Result-cases (load_redis b)) [
            | inr (p, e'') ↦ rw (e, e', e'') (rw (configured b, e, e', e'') refl)
            | inl (r, e'') ↦
                rw (e, e', e'')
                  (
                    record {
                      backend = refl;
                      named = load_storage_backend-Names;
                      path = load_file_path b f e';
                      file = load_file_lem b f e';
                      ddb = load_dynamodb_lem b d e;
                      redis_enabled = load_redis_lem b r e'';
                    },
                    rw (configured b, e, e', e'') refl,
                  )
          ]
        ]
      ]
