-- ===== src/Storage/File.antt =====
-- trust-registry/src/storage/adapters/csv_file_storage.rs: the records of a CSV file, kept in
-- memory. The file system (at the one path of the storage), the `csv` crate and the coding of a
-- context are parameters; times are numbers, and an error of these crates is the text it displays.
-- A method's change of the memory and its write of the file are one step here; `Sync` takes the
-- rounds of the synchronisation apart, and `Writers` two methods that write at once.
pub mod Row
pub mod Laws
pub mod Refines
pub mod Reload
pub mod Sync
pub mod Writers
use affinidi_trust_registry.Domain.TrustRecord.{TrustRecord}
use affinidi_trust_registry.Storage.Repository.{
  TrustRecordQuery, TrustRecordList, RepositoryError, query_failed, serialization_failed,
  record_not_found, record_already_exists, Access, TrustRecordRepository,
  TrustRecordAdminRepository,
}
use affinidi_trust_registry.Storage.Key.{
  RecordKey, key_eq, from_record, from_query, matches_query, generate_key,
}
use affinidi_trust_registry.Storage.File.Row
use affinidi_trust_registry.Storage.File.Row.{TrustRecordCsvRow, ContextText, into_record}
use affinidi_trust_registry.Prelude.Text.{leb, trim}
use affinidi_trust_registry.Prelude.HashMap.{HashMap, values, contains_key, insert, remove, get}
use affinidi_trust_registry.Prelude.Effect
use affinidi_trust_registry.Prelude.Effect.{Effect, lift, pure, with_error}
use affinidi_trust_registry.Prelude.{
  ℕ, String, ◌<>◌, Bool, false, Option, none, some, List, [], ◌∷◌, map, Result, ok, err, map_err,
  ok_or, ◌>>=◌, find, is_none, if◌then◌else◌,
}

-- `tokio::fs` at the path of the storage; the state `F` holds the file.
pub record FileSystem (F : Type 0) : Type 1 where
  pub Metadata : Type 0
  pub path_debug : String
  pub path_display : String
  pub metadata : F → Result Metadata String
  pub modified : Metadata → Result ℕ String
  pub read_to_string : F → Result String String
  pub write : String → Effect F String (Unit {0})

-- The `csv` crate: a writer of rows, and a reader with headers that trims every field
pub record Csv : Type 1 where
  pub Writer : Type 0
  pub new_writer : Writer
  pub serialize : TrustRecordCsvRow → Writer → Result Writer String
  pub into_inner : Writer → Result String String
  pub deserialize : String → List (Result TrustRecordCsvRow String)

pub record FileStorage (F : Type 0) : Type 0 where
  pub records : HashMap RecordKey TrustRecord
  pub last_modified : Option ℕ
  pub disk : F

module _ {F : Type 0} (fs : FileSystem F) (csv : Csv) (codec : ContextText) where
  -- The loop of `parse_csv`; the first row that cannot be read is the error.
  unfoldable pub parse_rows :
      List (Result TrustRecordCsvRow String)
      → HashMap RecordKey TrustRecord
      → Result (HashMap RecordKey TrustRecord) String
  parse_rows [] records = ok records
  parse_rows (result ∷ results) records = result >>= λ row.
      into_record codec row >>= λ r. parse_rows results (insert (from_record r) r records)

  unfoldable pub parse_csv : String → Result (HashMap RecordKey TrustRecord) String
  parse_csv contents = parse_rows (csv.deserialize contents) []

  abbrev pub unchanged_since : Option ℕ → ℕ → Bool
  unchanged_since none modified = false
  unchanged_since (some previous) modified = leb modified previous

  unfoldable pub load_if_modified :
      Option ℕ → F → Result (Option (HashMap RecordKey TrustRecord × ℕ)) String
  load_if_modified last_seen disk =
      map_err (λ e. "file_path: " <> fs.path_debug <> ", error: " <> e) (fs.metadata disk)
      >>= λ metadata. fs.modified metadata >>= λ modified.
          if unchanged_since last_seen modified
          then ok none
          else (fs.read_to_string disk >>= λ contents.
              parse_csv (trim contents) >>= λ records. ok (some (records, modified)))

  -- `try_new`, up to the start of the synchronisation
  unfoldable pub try_new : F → Result (FileStorage F) String
  try_new disk = load_if_modified none disk >>= λ loaded.
      ok_or loaded ("unable to load trust records from " <> fs.path_display)
      >>= λ (records, modified).
          ok (record { records = records; last_modified = some modified; disk = disk })

  -- What a round of the synchronisation does with what it has loaded
  unfoldable pub store_loaded :
      Result (Option (HashMap RecordKey TrustRecord × ℕ)) String → FileStorage F → FileStorage F
  store_loaded (ok (some (new_records, modified))) s = record s {
    records = new_records;
    last_modified = some modified;
  }
  store_loaded (ok none) s = s
  store_loaded (err e) s = s

  -- One round of `spawn_sync_task`, with nothing in between
  unfoldable pub sync : FileStorage F → FileStorage F
  sync s = store_loaded (load_if_modified s.last_modified s.disk) s

  abbrev serialize_rows : List TrustRecordCsvRow → csv.Writer → Result csv.Writer String
  serialize_rows [] wtr = ok wtr
  serialize_rows (row ∷ rows) wtr = csv.serialize row wtr >>= λ wtr'. serialize_rows rows wtr'

  -- The text that `write_to_file` writes
  unfoldable pub csv_data : List TrustRecord → Result String String
  unfolding Row.from_record
  csv_data records =
      serialize_rows (map (Row.from_record codec) records) csv.new_writer >>= csv.into_inner

  abbrev pub on_disk :
      {A : Type 0} → Effect F RepositoryError A → Effect (FileStorage F) RepositoryError A
  on_disk m s = let (r, disk) = m s.disk in (r, record s { disk = disk })

  -- The modified time, read again after the write
  unfoldable pub modified_time : F → Result ℕ RepositoryError
  modified_time disk =
      map_err (λ e. query_failed ("Failed to get file metadata: " <> e)) (fs.metadata disk)
      >>= λ metadata.
          map_err (λ e. query_failed ("Failed to get modified time: " <> e)) (fs.modified metadata)

  abbrev pub note_modified : Effect (FileStorage F) RepositoryError (Unit {0})
  note_modified s = elim (modified_time s.disk) [
    | err e ↦ (err e, s)
    | ok modified ↦ (ok tt, record s { last_modified = some modified })
  ]

  -- What `write_to_file` does with the text that it has made of the records
  abbrev pub finish_write : String → Effect (FileStorage F) RepositoryError (Unit {0})
  finish_write data_text =
      Effect.◌>>◌
        (on_disk
          (with_error (λ e. query_failed ("Failed to write CSV file: " <> e)) (fs.write data_text)))
        note_modified

  unfoldable pub write_to_file : Effect (FileStorage F) RepositoryError (Unit {0})
  unfolding csv_data modified_time
  write_to_file s = elim (csv_data (values s.records)) [
    | err e ↦ (err (serialization_failed e), s)
    | ok data_text ↦ finish_write data_text s
  ]

  unfoldable pub find_by_query : TrustRecordQuery → Access (FileStorage F) (Option TrustRecord)
  unfolding matches_query
  find_by_query q s = (ok (find (λ r. matches_query r q) (values s.records)), s)

  unfoldable pub create : TrustRecord → Access (FileStorage F) (Unit {0})
  unfolding from_record write_to_file
  create r s =
      let key = from_record r in
      if contains_key key s.records
      then (
        err (
            record_already_exists (
              "Record already exists: "
              <> generate_key r.entity_id r.authority_id r.action r.resource)),
        s,
      )
      else write_to_file (record s { records = insert key r s.records })

  unfoldable pub update : TrustRecord → Access (FileStorage F) (Unit {0})
  unfolding from_record write_to_file
  update r s =
      let key = from_record r in
      if contains_key key s.records
      then write_to_file (record s { records = insert key r s.records })
      else (
        err (
            record_not_found (
              "Record not found: " <> generate_key r.entity_id r.authority_id r.action r.resource)),
        s,
      )

  unfoldable pub delete : TrustRecordQuery → Access (FileStorage F) (Unit {0})
  unfolding from_query write_to_file
  delete q s =
      let key = from_query q in
      let s' : FileStorage F = record s { records = remove key s.records } in
      if is_none (get key s.records)
      then (
        err (
            record_not_found (
              "Record not found: " <> generate_key q.entity_id q.authority_id q.action q.resource)),
        s',
      )
      else write_to_file s'

  unfoldable pub list : Access (FileStorage F) TrustRecordList
  list s = (ok (record { records = values s.records }), s)

  unfoldable pub read : TrustRecordQuery → Access (FileStorage F) TrustRecord
  unfolding matches_query
  read q s = (
    ok_or (find (λ r. matches_query r q) (values s.records)) (
        record_not_found
          ("Record not found: " <> generate_key q.entity_id q.authority_id q.action q.resource)),
    s,
  )

  abbrev pub file_repository : TrustRecordAdminRepository (FileStorage F)
  file_repository = record {
    queries = record { find_by_query = find_by_query };
    create = create;
    update = update;
    delete = delete;
    list = list;
    read = read;
  }
