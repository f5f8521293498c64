-- ===== src/Storage/File/Sync.antt =====
-- Rounds of the synchronisation: `spawn_sync_task` reads the file, and later replaces the records
-- with what it has read; other methods may run in between.
use affinidi_trust_registry.Domain.TrustRecord.{TrustRecord}
use affinidi_trust_registry.Storage.Key.{key_eq, from_record}
use affinidi_trust_registry.Storage.Local.Map.{IsValidMap, Records, insert-IsValidMap}
use affinidi_trust_registry.Storage.File.Row.{TrustRecordCsvRow, ContextText, into_record}
use affinidi_trust_registry.Storage.File.{
  FileSystem, Csv, FileStorage, parse_rows, parse_csv, load_if_modified, store_loaded, sync, create,
}
use affinidi_trust_registry.Storage.File.Laws.{IsCsv, IsFileSystem}
use affinidi_trust_registry.Storage.File.Refines.{IsValid, text_after, written, write_to_file_lem}
use affinidi_trust_registry.Prelude.Text.{trim}
use affinidi_trust_registry.Prelude.HashMap.{get, contains_key, insert, values}
use affinidi_trust_registry.Prelude.{
  ℕ, String, ◌≡◌, refl, ap, subst, Option, none, some, arith, Result, ok, err, List, [], ◌∷◌, ◌∙◌,
  Result-cases, inl, inr,
}

module _ {F : Type 0} (fs : FileSystem F) (csv : Csv) (codec : ContextText) where
  parse_rows-IsValidMap :
      (results : List (Result TrustRecordCsvRow String)) (m m' : Records)
      → IsValidMap m
      → parse_rows fs csv codec results m ≡ ok m'
      → IsValidMap m'
  unfolding parse_rows
  parse_rows-IsValidMap [] m m' v e = subst IsValidMap (ground arith) v
  parse_rows-IsValidMap (err p ∷ results) m m' v e = cc
  parse_rows-IsValidMap (ok row ∷ results) m m' v e = elim (Result-cases (into_record codec row)) [
    | inl (r, read) ↦
        parse_rows-IsValidMap results (insert (from_record r) r m) m' (insert-IsValidMap r m v)
          (ground arith)
    | inr (p, failed) ↦ ground arith
  ]

  loaded-IsValidMap :
      (last_seen : Option ℕ) (disk : F) (m : Records) (modified : ℕ)
      → load_if_modified fs csv codec last_seen disk ≡ ok (some (m, modified))
      → IsValidMap m
  unfolding load_if_modified parse_csv
  loaded-IsValidMap last_seen disk m modified e = elim (Result-cases (fs.read_to_string disk)) [
    | inl (contents, read) ↦
        parse_rows-IsValidMap (csv.deserialize (trim contents)) [] m
          (record { keyed = tt; distinct = tt }) (ground arith)
    | inr (p, failed) ↦ ground arith
  ]

  -- Whatever the file holds, a round of the synchronisation leaves records that stand under their
  -- own keys, each key once, if it finds such records.
  pub sync-IsValidMap :
      (s : FileStorage F) → IsValidMap s.records → IsValidMap (sync fs csv codec s).records
  unfolding sync
  sync-IsValidMap s v = elim (Result-cases (load_if_modified fs csv codec s.last_modified s.disk)) [
    | inl (none, e) ↦ unfold store_loaded in rw e v
    | inl (some (m, modified), e) ↦
        unfold store_loaded in rw e (loaded-IsValidMap s.last_modified s.disk m modified e)
    | inr (p, e) ↦ unfold store_loaded in rw e v
  ]

module _ {F : Type 0} {fs : FileSystem F} {csv : Csv} (codec : ContextText) (law : IsFileSystem fs)
    (rows : IsCsv csv) where
  -- The creation of a record between the two halves of a round that has read the file before
  abbrev pub late_round : FileStorage F → TrustRecord → FileStorage F
  late_round s r =
      store_loaded fs csv codec (load_if_modified fs csv codec s.last_modified s.disk)
        (create fs csv codec r s).1

  pub create-fresh :
      (s : FileStorage F) (r : TrustRecord)
      → IsValid codec law rows s
      → get (from_record r) s.records ≡ none
      → create fs csv codec r s ≡ (
        ok tt,
        written codec law rows (record s { records = insert (from_record r) r s.records }),
      )
  unfolding create contains_key
  create-fresh s r v free =
      rw
        (
          free,
          write_to_file_lem codec law rows
              (record s { records = insert (from_record r) r s.records }) v.online,
        )
        refl

  -- A record that is created between the two halves of a round, which has read the file before, is
  -- lost: the creation succeeds, no search finds the record after the round, and the next creation
  -- writes the file without it. The file can be written, the new record's key is free, what the
  -- round has read holds neither that key nor the next record's.
  pub store_loaded-create :
      (s : FileStorage F) (r next : TrustRecord) (old : Records) (modified : ℕ)
      → IsValid codec law rows s
      → get (from_record r) s.records ≡ none
      → load_if_modified fs csv codec s.last_modified s.disk ≡ ok (some (old, modified))
      → get (from_record r) old ≡ none
      → get (from_record next) old ≡ none
      → ((create fs csv codec r s).0 ≡ ok tt)
        × (get (from_record r) (late_round s r).records ≡ none)
        × (law.contents (create fs csv codec next (late_round s r)).1.disk
            ≡ text_after codec law rows (values (insert (from_record next) next old)))
  unfolding store_loaded
  store_loaded-create s r next old modified v free loaded absent absent' =
      let s' = written codec law rows (record s { records = insert (from_record r) r s.records }) in
      let after : FileStorage F = record s' { records = old; last_modified = some modified } in
      let start = create-fresh s r v free in
      let late : late_round s r ≡ after = rw (loaded, start) refl in
      let finish =
        create-fresh after next
          (record {
            map = loaded-IsValidMap fs csv codec s.last_modified s.disk old modified loaded;
            online = law.online_write _ s.disk v.online;
          })
          absent' in
      (
        ap (λ x. x.0) start,
        ap (λ x. get (from_record r) x.records) late ∙ absent,
        ap (λ x. law.contents (create fs csv codec next x).1.disk) late
            ∙ ap (λ x. law.contents x.1.disk) finish
            ∙ law.contents_write _ s'.disk,
      )
