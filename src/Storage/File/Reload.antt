-- ===== src/Storage/File/Reload.antt =====
-- What a restart finds of the records that were written.
use affinidi_trust_registry.Domain.Context.{empty}
use affinidi_trust_registry.Domain.RecordType.{from_str-record_type_text}
use affinidi_trust_registry.Domain.TrustRecord.{TrustRecord, is_recognized, is_authorized}
use affinidi_trust_registry.Json.{Value, is_object, is_array}
use affinidi_trust_registry.Json.Laws.{IsDistinct}
use affinidi_trust_registry.Storage.Key.{RecordKey, key_eq, from_record}
use affinidi_trust_registry.Storage.Local.Map.{IsValidMap, Records}
use affinidi_trust_registry.Storage.File.Row
use affinidi_trust_registry.Storage.File.Row.{
  TrustRecordCsvRow, ContextText, into_record, parse_context,
}
use affinidi_trust_registry.Storage.File.{
  FileSystem, Csv, FileStorage, parse_rows, parse_csv, load_if_modified, try_new, write_to_file,
}
use affinidi_trust_registry.Storage.File.Laws.{IsTrimmed, IsCsv, IsContextText, IsFileSystem}
use affinidi_trust_registry.Storage.File.Refines.{IsValid, text_after, written, write_to_file_lem}
use affinidi_trust_registry.Prelude.HashMap.{get, insert, values, get-insert}
use affinidi_trust_registry.Prelude.{
  ◌||◌, ◌≡◌, refl, none, some, and_then, or_else, unwrap_or, arith, ok, List, [], ◌∷◌, map, sym,
  ◌∙◌, All, if◌then◌else◌, Bool-cases, inl, inr, Option,
}

-- What a row keeps of a record: both flags as what they read as, and the context if it is an object
-- or an array.
abbrev pub kept : TrustRecord → TrustRecord
kept r = record r {
  recognized = some (is_recognized r);
  authorized = some (is_authorized r);
  context = if is_object r.context.value || is_array r.context.value then r.context else empty;
}

module _ {codec : ContextText} (law : IsContextText codec) where
  -- A context that was written is read back.
  parse_context_lem :
      (v : Value)
      → IsDistinct v
      → parse_context codec (some (codec.encode (unwrap_or (codec.to_string v) ""))) ≡ some v
  unfolding parse_context
  parse_context_lem v d =
      rw
        (
          law.to_string_written v,
          law.decode_encode (law.written v),
          law.from_utf8_bytes (law.written v),
          law.from_str_written v d,
        )
        refl

  -- A row that a record was written to is read back as what it keeps of the record: the four
  -- identifiers, the record type and both flags as what they read as, and the context if it is an
  -- object or an array, but the empty context in place of any other value. The context is one
  -- with no key twice in an object.
  pub into_record-from_record :
      (r : TrustRecord)
      → IsDistinct r.context.value
      → into_record codec (Row.from_record codec r) ≡ ok (kept r)
  unfolding into_record Row.from_record
  into_record-from_record r d =
      rw (from_str-record_type_text r.record_type)
        (elim (Bool-cases (is_object r.context.value || is_array r.context.value)) [
          | inl written ↦ rw (written, parse_context_lem r.context.value d) refl
          | inr left ↦ rw left (unfold parse_context in refl)
        ])

abbrev pub kept_in : RecordKey → Records → Option TrustRecord
kept_in k m = and_then (get k m) (λ r. some (kept r))

-- The records that a file of rows is read to
abbrev pub insert_kept : List TrustRecord → Records → Records
insert_kept [] m = m
insert_kept (r ∷ rs) m = insert_kept rs (insert (from_record (kept r)) (kept r) m)

pub or_else-none : (o : Option TrustRecord) → or_else o none ≡ o
or_else-none none = refl
or_else-none (some r) = refl

key_kept : (r : TrustRecord) → from_record (kept r) ≡ from_record r
unfolding from_record
key_kept r = refl

pub get-insert_kept :
    (k : RecordKey) (m base : Records)
    → IsValidMap m
    → get k (insert_kept (values m) base) ≡ or_else (kept_in k m) (get k base)
unfolding values get
get-insert_kept k [] base v = refl
get-insert_kept k ((j, r) ∷ m) base v =
    let next = insert (from_record (kept r)) (kept r) base in
    let ih = get-insert_kept k m next (record { keyed = v.keyed.1; distinct = v.distinct.1 }) in
    ih
    ∙ rw (get-insert k (from_record (kept r)) (kept r) base, key_kept r, sym v.keyed.0)
        (ground (arith, v.distinct.0))

module _ {F : Type 0} {fs : FileSystem F} {csv : Csv} {codec : ContextText} (law : IsFileSystem fs)
    (rows : IsCsv csv) (contexts : IsContextText codec) where
  -- The record can be written to a row that is read back: the reader's trimming changes no text of it.
  abbrev pub IsClean : TrustRecord → Type 0
  IsClean r = IsDistinct r.context.value × IsTrimmed (Row.from_record codec r)

  parse_rows_lem :
      (rs : List TrustRecord) (m : Records)
      → All IsClean rs
      → parse_rows fs csv codec (map ok (map (Row.from_record codec) rs)) m ≡ ok (insert_kept rs m)
  unfolding parse_rows
  parse_rows_lem [] m h = refl
  parse_rows_lem (r ∷ rs) m (clean, h) =
      rw (into_record-from_record contexts r clean.0)
        (parse_rows_lem rs (insert (from_record (kept r)) (kept r) m) h)

  IsTrimmed-rows :
      (rs : List TrustRecord) → All IsClean rs → All IsTrimmed (map (Row.from_record codec) rs)
  IsTrimmed-rows [] h = tt
  IsTrimmed-rows (r ∷ rs) (clean, h) = (clean.1, IsTrimmed-rows rs h)

  pub load_if_modified_lem :
      (d : F) (rs : List TrustRecord)
      → law.IsOnline d
      → law.contents d ≡ text_after codec law rows rs
      → All IsClean rs
      → load_if_modified fs csv codec none d ≡ ok (some (insert_kept rs [], law.time d))
  unfolding load_if_modified parse_csv
  load_if_modified_lem d rs online e clean =
      rw
        (
          law.metadata_online d online,
          law.modified_time d,
          law.read_online d online,
          e,
          rows.deserialize_text (map (Row.from_record codec) rs) (IsTrimmed-rows rs clean),
          parse_rows_lem rs [] clean,
        )
        refl

  -- After a successful write the file is read at a restart, and the storage then holds under each
  -- key what a row keeps of the record that stood under it, and nothing under any other key.
  -- The file can be written and read, and in every record the context has no key twice in an object,
  -- and no text of its row has white space at its ends, which the reader trims.
  pub try_new-write_to_file :
      (s : FileStorage F)
      → IsValid codec law rows s
      → All IsClean (values s.records)
      → (s' : FileStorage F) × (try_new fs csv codec (write_to_file fs csv codec s).1.disk ≡ ok s')
        × ((k : RecordKey) → get k s'.records ≡ kept_in k s.records)
  try_new-write_to_file s v clean =
      let disk = law.after_write (text_after codec law rows (values s.records)) s.disk in
      (
        record {
          records = insert_kept (values s.records) [];
          last_modified = some (law.time disk);
          disk = disk;
        },
        rw (write_to_file_lem codec law rows s v.online) (
            unfold try_new in
            rw
              (load_if_modified_lem disk (values s.records) (law.online_write _ s.disk v.online)
                (law.contents_write _ s.disk) clean)
              refl),
        λ k.
            get-insert_kept k s.records [] v.map ∙ unfold get in or_else-none (kept_in k s.records),
      )
