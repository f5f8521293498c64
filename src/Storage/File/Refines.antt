-- ===== src/Storage/File/Refines.antt =====
-- The file storage implements the registry, while its file can be written.
use affinidi_trust_registry.Domain.TrustRecord.{TrustRecord}
use affinidi_trust_registry.Storage.Repository.{TrustRecordQuery, TrustRecordAdminRepository}
use affinidi_trust_registry.Storage.Key.{key_eq, from_record, from_query, generate_key}
use affinidi_trust_registry.Storage.Registry.{
  Registry, Means, Means-intro, ListsAll, Implements, find_in, create_in, update_in, delete_in,
  read_in, create_in-none, create_in-some, update_in-none, update_in-some, delete_in-none,
  delete_in-some,
}
use affinidi_trust_registry.Storage.Local.Map.{
  IsValidMap, Records, map_view, insert-IsValidMap, remove-IsValidMap, map_view-insert,
  map_view-remove, find-values, values-IsListing,
}
use mathlib.Core.List.{append-nil, append_assoc}
use affinidi_trust_registry.Storage.File.Row
use affinidi_trust_registry.Storage.File.Row.{TrustRecordCsvRow, ContextText}
use affinidi_trust_registry.Storage.File.{
  FileSystem, Csv, FileStorage, serialize_rows, csv_data, modified_time, write_to_file,
  find_by_query, create, update, delete, list, read, file_repository,
}
use affinidi_trust_registry.Storage.File.Laws.{IsCsv, IsFileSystem}
use affinidi_trust_registry.Prelude.HashMap.{
  get, contains_key, insert, remove, remove_absent, values,
}
use affinidi_trust_registry.Prelude.{
  String, ◌≡◌, refl, inl, inr, some, Option-cases, arith, ok, List, [], ◌∷◌, ◌++◌, map, ◌>>=◌, ap,
  ◌∙◌,
}

module _ {F : Type 0} {fs : FileSystem F} {csv : Csv} (codec : ContextText) (law : IsFileSystem fs)
    (rows : IsCsv csv) where
  -- The writer holds the rows in their order.
  serialize_rows_lem :
      (rs : List TrustRecordCsvRow) (w : csv.Writer)
      → (serialize_rows fs csv codec rs w >>= csv.into_inner)
        ≡ ok (rows.text_of (rows.rows w ++ rs))
  serialize_rows_lem [] w = ground (arith, rows.into_inner_text w, append-nil (rows.rows w))
  serialize_rows_lem (row ∷ rs) w = rw rows.serialize_add (
      serialize_rows_lem rs (rows.add row w)
      ∙ ap (λ l. ok (rows.text_of l)) (rw rows.rows_add (append_assoc (rows.rows w) (row ∷ []) rs)))

  abbrev pub text_after : List TrustRecord → String
  text_after records = rows.text_of (map (Row.from_record codec) records)

  pub csv_data_lem :
      (records : List TrustRecord) → csv_data fs csv codec records ≡ ok (text_after records)
  unfolding csv_data
  csv_data_lem records =
      serialize_rows_lem (map (Row.from_record codec) records) csv.new_writer
      ∙ ap (λ l. ok (rows.text_of (l ++ map (Row.from_record codec) records))) rows.rows_new

  pub modified_time_lem : (d : F) → law.IsOnline d → modified_time fs csv codec d ≡ ok (law.time d)
  unfolding modified_time
  modified_time_lem d online = rw (law.metadata_online d online, law.modified_time d) refl

  -- The state after a write
  abbrev pub written : FileStorage F → FileStorage F
  written s =
      let disk = law.after_write (text_after (values s.records)) s.disk in
      record s { last_modified = some (law.time disk); disk = disk }

  pub write_to_file_lem :
      (s : FileStorage F) → law.IsOnline s.disk → write_to_file fs csv codec s ≡ (ok tt, written s)
  unfolding write_to_file
  write_to_file_lem s online =
      let t = text_after (values s.records) in
      ground (
        arith,
        csv_data_lem (values s.records),
        law.write_online t s.disk online,
        modified_time_lem (law.after_write t s.disk) (law.online_write t s.disk online),
      )

  pub record IsValid (s : FileStorage F) : Type 0 where
    pub map : IsValidMap s.records
    pub online : law.IsOnline s.disk

  abbrev pub view : FileStorage F → Registry
  view s = map_view s.records

  abbrev repo : TrustRecordAdminRepository (FileStorage F)
  repo = file_repository fs csv codec

  written-IsValid :
      (s : FileStorage F) (m : Records)
      → IsValid s
      → IsValidMap m
      → IsValid (written (record s { records = m }))
  written-IsValid s m v w = record {
    map = w;
    online = law.online_write (text_after (values m)) s.disk v.online;
  }

  module _ (s : FileStorage F) (v : IsValid s) where
    find-Means : (q : TrustRecordQuery) → Means IsValid view (repo.find_by_query q) (find_in q) s
    unfolding find_by_query
    find-Means q = record {
      result = rw (find-values q s.records v.map.keyed);
      view_after = refl;
      valid_after = v;
    }

    read-Means : (q : TrustRecordQuery) → Means IsValid view (repo.read q) (read_in q) s
    unfolding read from_query
    read-Means q = record {
      result = rw (find-values q s.records v.map.keyed);
      view_after = refl;
      valid_after = v;
    }

    list-ListsAll : ListsAll IsValid view repo.list s
    unfolding list
    list-ListsAll = record {
      all = _;
      result = refl;
      listing = values-IsListing s.records v.map;
      view_after = refl;
      valid_after = v;
    }

    create-Means : (r : TrustRecord) → Means IsValid view (repo.create r) (create_in r) s
    unfolding create contains_key generate_key
    create-Means r = elim (Option-cases (get (from_record r) s.records)) [
      | inl absent ↦
          let m = insert (from_record r) r s.records in
          Means-intro IsValid view _ (create_in r) s (written (record s { records = m })) (ok tt) _
            (rw (absent, write_to_file_lem (record s { records = m }) v.online) refl)
            (create_in-none r (view s) absent) (map_view-insert r s.records)
            (written-IsValid s m v (insert-IsValidMap r s.records v.map))
      | inr (old, present) ↦
          Means-intro IsValid view _ (create_in r) s s _ (view s) (ground arith)
            (create_in-some r (view s) present) refl v
    ]

    update-Means : (r : TrustRecord) → Means IsValid view (repo.update r) (update_in r) s
    unfolding update contains_key generate_key
    update-Means r = elim (Option-cases (get (from_record r) s.records)) [
      | inl absent ↦
          Means-intro IsValid view _ (update_in r) s s _ (view s) (ground arith)
            (update_in-none r (view s) absent) refl v
      | inr (old, present) ↦
          let m = insert (from_record r) r s.records in
          Means-intro IsValid view _ (update_in r) s (written (record s { records = m })) (ok tt) _
            (rw (present, write_to_file_lem (record s { records = m }) v.online) refl)
            (update_in-some r (view s) present) (map_view-insert r s.records)
            (written-IsValid s m v (insert-IsValidMap r s.records v.map))
    ]

    delete-Means : (q : TrustRecordQuery) → Means IsValid view (repo.delete q) (delete_in q) s
    unfolding delete generate_key
    delete-Means q = elim (Option-cases (get (from_query q) s.records)) [
      | inl absent ↦
          Means-intro IsValid view _ (delete_in q) s s _ (view s)
            (ground (arith, remove_absent (from_query q) s.records))
            (delete_in-none q (view s) absent) refl v
      | inr (old, present) ↦
          let m = remove (from_query q) s.records in
          Means-intro IsValid view _ (delete_in q) s (written (record s { records = m })) (ok tt) _
            (rw (present, write_to_file_lem (record s { records = m }) v.online) refl)
            (delete_in-some q (view s) present) (map_view-remove (from_query q) s.records)
            (written-IsValid s m v (remove-IsValidMap (from_query q) s.records v.map))
    ]

  -- While its file can be written, and as long as no round of the synchronisation comes in between,
  -- the file storage implements the registry: all six methods, at every key.
  pub file_repository-Implements : Implements IsValid view repo
  file_repository-Implements = record {
    keyed = record {
      find = λ q s _ v. find-Means s v q;
      create = λ r s _ v. create-Means s v r;
      update = λ r s _ v. update-Means s v r;
      delete = λ q s _ v. delete-Means s v q;
      read = λ q s _ v. read-Means s v q;
    };
    list = λ s v. list-ListsAll s v;
  }
