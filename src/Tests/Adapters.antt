-- ===== src/Tests/Adapters.antt =====
-- The adapters at concrete files and databases.
use affinidi_trust_registry.Domain.TrustRecord.{TrustRecord}
use affinidi_trust_registry.Storage.Registry.{Implements, ImplementsKeyed}
use affinidi_trust_registry.Storage.Key.{
  RecordKey, RecordKey-discrete, key_eq, from_record, matches_query, from_query, matches_query_iff,
}
use affinidi_trust_registry.Storage.Key.Separator.{is_plain, key_text_injective}
use affinidi_trust_registry.Storage.Local.Map.{IsValidMap}
use affinidi_trust_registry.Storage.File.Row
use affinidi_trust_registry.Storage.File.Row.{into_record}
use affinidi_trust_registry.Storage.File.{
  FileStorage, parse_csv, parse_rows, create, try_new, write_to_file, sync, file_repository,
  load_if_modified,
}
use affinidi_trust_registry.Storage.File.Refines as File
use affinidi_trust_registry.Storage.File.Refines.{file_repository-Implements, text_after}
use affinidi_trust_registry.Storage.File.Reload.{
  kept, kept_in, IsClean, into_record-from_record, try_new-write_to_file,
}
use affinidi_trust_registry.Storage.File.Writers.{with_record, Loses, overlapped-Loses}
use affinidi_trust_registry.Storage.File.Sync.{sync-IsValidMap, late_round, store_loaded-create}
use affinidi_trust_registry.Storage.Redis
use affinidi_trust_registry.Storage.Redis.{redis_repository, key_from_record}
use affinidi_trust_registry.Storage.Redis.Refines as Refined
use affinidi_trust_registry.Storage.Redis.Refines.{redis_repository-Implements}
use affinidi_trust_registry.Storage.Redis.Crossed.{find_by_query-create_crossed}
use affinidi_trust_registry.Json.{get_field}
use affinidi_trust_registry.Json.Laws.{IsDistinct}
use affinidi_trust_registry.Storage.File.Laws.{IsTrimmed}
use affinidi_trust_registry.Tests.Fixtures.{
  passport, licence, passport_query, stored, stored-IsValidMap,
}
use affinidi_trust_registry.Tests.Rows.{
  csv, csv_law, coding, coding_law, Disk, disk_system, disk_law,
}
use affinidi_trust_registry.Domain.RecordType.{record_type_text}
use affinidi_trust_registry.Tests.Values.{value_text}
use affinidi_trust_registry.Tests.Database.{connection, connection_law, text}
use affinidi_trust_registry.Prelude.HashMap.{get, values, insert}
use affinidi_trust_registry.Prelude.Text.{trim}
use affinidi_trust_registry.Prelude.{
  All, String-discrete, ◌<>◌, ◌≡◌, ◌↔◌, refl, subst, unwrap_or, true, none, some, [], ok,
}

abbrev storage : FileStorage Disk
storage = record { records = stored; last_modified = some 3; disk = ("", 3) }

storage-IsValid : File.IsValid coding disk_law csv_law storage
storage-IsValid = record { map = stored-IsValidMap; online = tt }

file_repository-Implements_example :
    Implements
      (File.IsValid coding disk_law csv_law)
      (File.view coding disk_law csv_law)
      (file_repository disk_system csv coding)
file_repository-Implements_example = file_repository-Implements coding disk_law csv_law

redis_repository-Implements_example :
    ImplementsKeyed
      (Refined.IsValid connection_law)
      (Refined.view connection_law)
      (λ k. is_plain k ≡ true)
      (redis_repository connection text)
redis_repository-Implements_example = redis_repository-Implements connection_law

-- A record whose authority holds the separator
abbrev crossed : TrustRecord
crossed = record passport {
  entity_id = record { text = "did:alice" };
  authority_id = record { text = "did:state" <> "|" <> "did:city" };
}

find_by_query-create_crossed_example :
    (Redis.find_by_query connection text
      record {
        entity_id = record { text = "did:alice" <> "|" <> "did:state" };
        authority_id = record { text = "did:city" };
        action = crossed.action;
        resource = crossed.resource;
      }
      (Redis.create connection text crossed []).1).0
    ≡ ok (some crossed)
unfolding get
find_by_query-create_crossed_example =
    find_by_query-create_crossed connection_law "did:alice" "did:state" "did:city" crossed [] refl
      refl tt refl

passport_plain : is_plain (from_record passport) ≡ true
unfolding is_plain from_record
passport_plain = refl

key_text_injective_example : from_record passport ≡ from_record passport
key_text_injective_example =
    key_text_injective (from_record passport) (from_record passport) passport_plain passport_plain
      refl

matches_query_iff_example :
    (matches_query passport passport_query ≡ true)
    ↔ (from_record passport ≡ from_query passport_query)
matches_query_iff_example = matches_query_iff passport passport_query

passport-IsDistinct : IsDistinct passport.context.value
unfolding get_field
passport-IsDistinct = (refl, tt, tt)

passport-IsTrimmed : IsTrimmed (Row.from_record coding passport)
unfolding Row.from_record trim record_type_text value_text
passport-IsTrimmed = record {
  entity_id = refl;
  authority_id = refl;
  action = refl;
  resource = refl;
  record_type = refl;
  context = λ p. cc;
  context_text = λ text e. subst (λ o. trim (unwrap_or o "") ≡ unwrap_or o "") e refl;
}

stored-IsClean : All (IsClean disk_law csv_law coding_law) (values stored)
unfolding values
stored-IsClean = ((passport-IsDistinct, passport-IsTrimmed), tt)

into_record-from_record_example :
    into_record coding (Row.from_record coding passport) ≡ ok (kept passport)
into_record-from_record_example = into_record-from_record coding_law passport passport-IsDistinct

try_new-write_to_file_example :
    (s' : FileStorage Disk) × (try_new disk_system csv coding
        (write_to_file disk_system csv coding storage).1.disk
      ≡ ok s')
    × ((k : RecordKey) → get k s'.records ≡ kept_in k storage.records)
try_new-write_to_file_example =
    try_new-write_to_file disk_law csv_law coding_law storage storage-IsValid stored-IsClean

sync-IsValidMap_example : IsValidMap (sync disk_system csv coding storage).records
sync-IsValidMap_example = sync-IsValidMap disk_system csv coding storage stored-IsValidMap

-- A storage whose file somebody has emptied since it was read
abbrev emptied : FileStorage Disk
emptied = record { records = stored; last_modified = some 3; disk = ("", 4) }

emptied_read :
    load_if_modified disk_system csv coding emptied.last_modified emptied.disk ≡ ok (some ([], 4))
unfolding load_if_modified trim parse_csv parse_rows
emptied_read = refl

licence_absent : get (from_record licence) stored ≡ none
unfolding get from_record RecordKey-discrete String-discrete
licence_absent = refl

store_loaded-create_example :
    ((create disk_system csv coding licence emptied).0 ≡ ok tt)
    × (get (from_record licence) (late_round coding disk_law csv_law emptied licence).records
        ≡ none)
    × (disk_law.contents
          (create disk_system csv coding passport
            (late_round coding disk_law csv_law emptied licence)).1.disk
        ≡ text_after coding disk_law csv_law (values (insert (from_record passport) passport [])))
unfolding get
store_loaded-create_example =
    store_loaded-create coding disk_law csv_law emptied licence passport [] 4
      (record { map = stored-IsValidMap; online = tt }) licence_absent emptied_read refl refl

-- A storage without records
abbrev blank : FileStorage Disk
blank = record { records = []; last_modified = some 3; disk = ("", 3) }

licence_free :
    get (from_record licence) (with_record disk_system csv coding passport blank).records ≡ none
unfolding get insert from_record RecordKey-discrete String-discrete
licence_free = refl

passport-IsClean :
    All
      (IsClean disk_law csv_law coding_law)
      (values (with_record disk_system csv coding passport blank).records)
unfolding values insert
passport-IsClean = ((passport-IsDistinct, passport-IsTrimmed), tt)

overlapped-Loses_example : Loses disk_law csv_law coding_law passport licence blank
overlapped-Loses_example =
    overlapped-Loses disk_law csv_law coding_law passport licence blank
      (record { map = record { keyed = tt; distinct = tt }; online = tt }) licence_free
      passport-IsClean
