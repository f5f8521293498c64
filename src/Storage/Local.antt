-- ===== src/Storage/Local.antt =====
-- trust-registry/src/storage/adapters/local_storage.rs: the records in a hash map behind a lock.
-- Each method holds the lock from its first look at the map to its last change, so that it is one
-- step; no method panics with the lock held, so that the lock is never poisoned.
pub mod Map
pub mod Refines
use affinidi_trust_registry.Domain.TrustRecord.{TrustRecord}
use affinidi_trust_registry.Storage.Repository.{
  TrustRecordQuery, TrustRecordList, record_not_found, record_already_exists, Access,
  TrustRecordRepository, TrustRecordAdminRepository,
}
use affinidi_trust_registry.Storage.Key.{
  RecordKey, key_eq, from_record, from_query, matches_query, generate_key,
}
use affinidi_trust_registry.Prelude.HashMap.{HashMap, values, contains_key, insert, remove, get}
use affinidi_trust_registry.Prelude.{
  String, ◌<>◌, Option, List, [], ◌∷◌, Result, ok, err, ok_or, is_none, find, if◌then◌else◌,
}

pub record LocalStorage : Type 0 where
  pub records : HashMap RecordKey TrustRecord

unfoldable pub new : LocalStorage
new = record { records = [] }

-- `save`: the error is `anyhow`'s, a text.
unfoldable pub save : TrustRecord → LocalStorage → Result (Unit {0}) String × LocalStorage
unfolding from_record
save r s =
    let key = from_record r in
    if contains_key key s.records
    then (err "Record with the same keys already exists", s)
    else (ok tt, record { records = insert key r s.records })

-- The loop of `with_records`
unfoldable pub insert_all : List TrustRecord → LocalStorage → LocalStorage
unfolding from_record
insert_all [] s = s
insert_all (r ∷ rs) s = insert_all rs (record { records = insert (from_record r) r s.records })

unfoldable pub with_records : List TrustRecord → LocalStorage
unfolding insert_all new
with_records rs = insert_all rs new

unfoldable pub clear : LocalStorage → LocalStorage
clear s = record { records = [] }

unfoldable pub find_by_query : TrustRecordQuery → Access LocalStorage (Option TrustRecord)
unfolding matches_query
find_by_query q s = (ok (find (λ r. matches_query r q) (values s.records)), s)

unfoldable pub create : TrustRecord → Access LocalStorage (Unit {0})
unfolding from_record
create r s =
    let key = from_record r in
    if contains_key key s.records
    then (
      err (
          record_already_exists (
            "Record already exists: "
            <> generate_key r.entity_id r.authority_id r.action r.resource)),
      s,
    )
    else (ok tt, record { records = insert key r s.records })

unfoldable pub update : TrustRecord → Access LocalStorage (Unit {0})
unfolding from_record
update r s =
    let key = from_record r in
    if contains_key key s.records then (ok tt, record { records = insert key r s.records }) else (
      err (
          record_not_found
            ("Record not found: " <> generate_key r.entity_id r.authority_id r.action r.resource)),
      s,
    )

-- `remove` hands back what was there; where nothing was, the map is as before.
unfoldable pub delete : TrustRecordQuery → Access LocalStorage (Unit {0})
unfolding from_query
delete q s =
    let key = from_query q in
    let s' : LocalStorage = record { records = remove key s.records } in
    if is_none (get key s.records)
    then (
      err (
          record_not_found
            ("Record not found: " <> generate_key q.entity_id q.authority_id q.action q.resource)),
      s',
    )
    else (ok tt, s')

unfoldable pub list : Access LocalStorage TrustRecordList
list s = (ok (record { records = values s.records }), s)

unfoldable pub read : TrustRecordQuery → Access LocalStorage TrustRecord
unfolding matches_query
read q s = (
  ok_or (find (λ r. matches_query r q) (values s.records)) (
      record_not_found
        ("Record not found: " <> generate_key q.entity_id q.authority_id q.action q.resource)),
  s,
)

abbrev pub local_queries : TrustRecordRepository LocalStorage
local_queries = record { find_by_query = find_by_query }

abbrev pub local_repository : TrustRecordAdminRepository LocalStorage
local_repository = record {
  queries = local_queries;
  create = create;
  update = update;
  delete = delete;
  list = list;
  read = read;
}
