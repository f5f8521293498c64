-- ===== src/Storage/File/Laws.antt =====
-- What the file storage relies on: a file that can be written and is read as it was written, a CSV
-- writer and reader that agree on rows without white space at the ends of a field, and a coding of
-- contexts that can be undone.
use affinidi_trust_registry.Json.{Value}
use affinidi_trust_registry.Json.Laws.{IsDistinct}
use affinidi_trust_registry.Storage.File.Row.{TrustRecordCsvRow, ContextText}
use affinidi_trust_registry.Storage.File.{FileSystem, Csv}
use affinidi_trust_registry.Prelude.Text.{trim}
use affinidi_trust_registry.Prelude.{ℕ, String, ◌≡◌, ◌≢◌, some, List, [], ◌∷◌, ◌++◌, map, ok, All}

-- No field of the row is changed by the reader's trimming, and a context is not the empty text,
-- which is read as none.
pub record IsTrimmed (row : TrustRecordCsvRow) : Type 0 where
  pub entity_id : trim row.entity_id ≡ row.entity_id
  pub authority_id : trim row.authority_id ≡ row.authority_id
  pub action : trim row.action ≡ row.action
  pub resource : trim row.resource ≡ row.resource
  pub record_type : trim row.record_type ≡ row.record_type
  pub context : row.context ≢ some ""
  pub context_text : (text : String) → row.context ≡ some text → trim text ≡ text

pub record IsCsv (csv : Csv) : Type 0 where
  pub rows : csv.Writer → List TrustRecordCsvRow
  pub text_of : List TrustRecordCsvRow → String
  pub add : TrustRecordCsvRow → csv.Writer → csv.Writer
  pub rows_new : rows csv.new_writer ≡ []
  pub rows_add : (row : TrustRecordCsvRow) (w : csv.Writer) → rows (add row w) ≡ rows w ++ row ∷ []
  pub serialize_add :
      (row : TrustRecordCsvRow) (w : csv.Writer) → csv.serialize row w ≡ ok (add row w)
  pub into_inner_text : (w : csv.Writer) → csv.into_inner w ≡ ok (text_of (rows w))
  pub deserialize_text :
      (rs : List TrustRecordCsvRow)
      → All IsTrimmed rs
      → csv.deserialize (trim (text_of rs)) ≡ map ok rs

pub record IsContextText (codec : ContextText) : Type 0 where
  pub bytes : String → codec.Bytes
  pub written : Value → String
  pub decode_encode : (t : String) → codec.decode (codec.encode t) ≡ some (bytes t)
  pub from_utf8_bytes : (t : String) → codec.from_utf8 (bytes t) ≡ some t
  pub to_string_written : (v : Value) → codec.to_string v ≡ some (written v)
  pub from_str_written : (v : Value) → IsDistinct v → codec.from_str (written v) ≡ some v
  pub encode_written : (v : Value) → codec.encode (written v) ≢ ""

pub record IsFileSystem {F : Type 0} (fs : FileSystem F) : Type 1 where
  pub contents : F → String
  pub time : F → ℕ
  pub IsOnline : F → Type 0
  pub after_write : String → F → F
  pub metadata_of : F → fs.Metadata
  pub metadata_online : (d : F) → IsOnline d → fs.metadata d ≡ ok (metadata_of d)
  pub modified_time : (d : F) → fs.modified (metadata_of d) ≡ ok (time d)
  pub read_online : (d : F) → IsOnline d → fs.read_to_string d ≡ ok (contents d)
  pub write_online : (t : String) (d : F) → IsOnline d → fs.write t d ≡ (ok tt, after_write t d)
  pub contents_write : (t : String) (d : F) → contents (after_write t d) ≡ t
  pub online_write : (t : String) (d : F) → IsOnline d → IsOnline (after_write t d)
