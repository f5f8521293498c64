-- ===== src/Storage/File/Writers.antt =====
-- Two methods that write the file at once: `write_to_file` makes a text of the records, and writes it
-- later without a lock over both, so that another method may change the records and write in between.
use affinidi_trust_registry.Domain.TrustRecord.{TrustRecord}
use affinidi_trust_registry.Storage.Repository.{RepositoryError, serialization_failed}
use affinidi_trust_registry.Storage.Key.{key_eq, from_record}
use affinidi_trust_registry.Storage.Local.Map.{insert-IsValidMap}
use affinidi_trust_registry.Storage.File.Row.{ContextText}
use affinidi_trust_registry.Storage.File.{
  FileSystem, Csv, FileStorage, csv_data, finish_write, create, try_new,
}
use affinidi_trust_registry.Storage.File.Laws.{IsCsv, IsContextText, IsFileSystem}
use affinidi_trust_registry.Storage.File.Refines.{
  IsValid, text_after, written, csv_data_lem, modified_time_lem,
}
use affinidi_trust_registry.Storage.File.Sync.{create-fresh}
use affinidi_trust_registry.Storage.File.Reload.{
  IsClean, kept, kept_in, insert_kept, load_if_modified_lem, get-insert_kept, or_else-none,
}
use affinidi_trust_registry.Prelude.HashMap.{get, insert, values, get-insert}
use affinidi_trust_registry.Prelude.{
  String, [], ◌≡◌, refl, ap, ◌∙◌, none, some, Result, ok, err, List, All, arith, and_then,
}

module _ {F : Type 0} (fs : FileSystem F) (csv : Csv) (codec : ContextText) where
  -- The records with a new one
  abbrev pub with_record : TrustRecord → FileStorage F → FileStorage F
  with_record r s = record s { records = insert (from_record r) r s.records }

  abbrev finish_with :
      Result String String → FileStorage F → Result (Unit {0}) RepositoryError × FileStorage F
  finish_with (err e) s = (err (serialization_failed e), s)
  finish_with (ok data_text) s = finish_write fs csv codec data_text s

  -- A creation or update of `r`, past its guard, whose text is made before, and written after, the
  -- creation of `other`
  abbrev pub overlapped :
      TrustRecord → TrustRecord → FileStorage F → Result (Unit {0}) RepositoryError × FileStorage F
  overlapped r other s =
      finish_with (csv_data fs csv codec (values (with_record r s).records))
        (create fs csv codec other (with_record r s)).1

module _ {F : Type 0} {fs : FileSystem F} {csv : Csv} {codec : ContextText} (law : IsFileSystem fs)
    (rows : IsCsv csv) (contexts : IsContextText codec) where
  -- The file was written with the text of some records, and the memory has those of `s`.
  abbrev rewritten : List TrustRecord → FileStorage F → FileStorage F
  rewritten records s =
      let disk = law.after_write (text_after codec law rows records) s.disk in
      record s { last_modified = some (law.time disk); disk = disk }

  finish_write_lem :
      (records : List TrustRecord) (s : FileStorage F)
      → law.IsOnline s.disk
      → finish_write fs csv codec (text_after codec law rows records) s
        ≡ (ok tt, rewritten records s)
  finish_write_lem records s online =
      let t = text_after codec law rows records in
      ground (
        arith,
        law.write_online t s.disk online,
        modified_time_lem codec law rows (law.after_write t s.disk)
            (law.online_write t s.disk online),
      )

  overlapped_lem :
      (r other : TrustRecord) (s : FileStorage F)
      → IsValid codec law rows (with_record fs csv codec r s)
      → get (from_record other) (with_record fs csv codec r s).records ≡ none
      → overlapped fs csv codec r other s ≡ (
        ok tt,
        rewritten (values (with_record fs csv codec r s).records) (
            written codec law rows (with_record fs csv codec other (with_record fs csv codec r s))),
      )
  overlapped_lem r other s v free =
      rw
        (
          csv_data_lem codec law rows (values (with_record fs csv codec r s).records),
          create-fresh codec law rows (with_record fs csv codec r s) other v free,
        )
        (finish_write_lem (values (with_record fs csv codec r s).records) _
          (law.online_write _ s.disk v.online))

  -- What becomes of the record that was created in between: both methods succeed, a search of the
  -- memory finds it, and the records that a restart reads have nothing under its key.
  pub record Loses (r other : TrustRecord) (s : FileStorage F) : Type 0 where
    pub first_fine : (overlapped fs csv codec r other s).0 ≡ ok tt
    pub other_fine : (create fs csv codec other (with_record fs csv codec r s)).0 ≡ ok tt
    pub remembered :
        get (from_record other) (overlapped fs csv codec r other s).1.records ≡ some other
    pub restarted : FileStorage F
    pub restart : try_new fs csv codec (overlapped fs csv codec r other s).1.disk ≡ ok restarted
    pub forgotten : get (from_record other) restarted.records ≡ none

  -- A creation that runs between the moment at which another creation or update, past its guard,
  -- makes its text of the records and the moment at which it writes it is lost in the file: both
  -- succeed, the memory has the record, and a restart does not find it. The file can be written, the
  -- created record's key is free, and the records of the first text can be read back, none of them
  -- with white space at an end of a text of its row.
  pub overlapped-Loses :
      (r other : TrustRecord) (s : FileStorage F)
      → IsValid codec law rows s
      → get (from_record other) (with_record fs csv codec r s).records ≡ none
      → All (IsClean law rows contexts) (values (with_record fs csv codec r s).records)
      → Loses r other s
  overlapped-Loses r other s v free clean =
      let s1 = with_record fs csv codec r s in
      let v1 : IsValid codec law rows s1 = record {
        map = insert-IsValidMap r s.records v.map;
        online = v.online;
      } in
      let run = overlapped_lem r other s v1 free in
      let s2 = written codec law rows (with_record fs csv codec other s1) in
      let disk = (rewritten (values s1.records) s2).disk in
      record {
        first_fine = ap (λ p. p.0) run;
        other_fine = ap (λ p. p.0) (create-fresh codec law rows s1 other v1 free);
        remembered =
            ap (λ p. get (from_record other) p.1.records) run
            ∙ (get-insert (from_record other) (from_record other) other s1.records ∙ ground arith);
        restarted = record {
          records = insert_kept (values s1.records) [];
          last_modified = some (law.time disk);
          disk = disk;
        };
        restart =
            ap (λ p. try_new fs csv codec p.1.disk) run
            ∙ (unfold try_new in
                rw
                  (load_if_modified_lem law rows contexts disk (values s1.records)
                    (law.online_write _ s2.disk (law.online_write _ s.disk v.online))
                    (law.contents_write _ s2.disk) clean)
                  refl);
        forgotten =
            get-insert_kept (from_record other) s1.records [] v1.map
            ∙ (unfold get in
                or_else-none (kept_in (from_record other) s1.records)
                ∙ ap (λ o. and_then o (λ r'. some (kept r'))) free);
      }
