-- ===== src/Tests/Rows.antt =====
-- A concrete CSV writer and reader, file and coding of contexts, with what the file storage relies
-- on of them.

use Prim.Native.Char.{Char}
use affinidi_trust_registry.Storage.File.Row.{TrustRecordCsvRow, ContextText}
use affinidi_trust_registry.Storage.File.{FileSystem, Csv}
use affinidi_trust_registry.Storage.File.Laws.{IsTrimmed, IsCsv, IsContextText, IsFileSystem}
use affinidi_trust_registry.Tests.Coding.{join, join_onto, parts, parts-join, mark}
use affinidi_trust_registry.Tests.Values.{value_text, value_of, value_of-value_text}
use affinidi_trust_registry.Prelude.Text.{trim, trim_start, trim_end}
use affinidi_trust_registry.Prelude.{
  ℕ, suc, ◌≢◌, String, Bool, true, false, ◌≡◌, refl, ap, ◌∙◌, Option, none, some, List, [], ◌∷◌,
  ◌++◌, map, ok, All,
}

abbrev pub flag_text : Bool → String
flag_text true = "true"
flag_text false = ""

abbrev pub flag_of : String → Bool
flag_of String.[] = false
flag_of (String.◌∷◌ c s) = true

abbrev pub option_text : Option String → String
option_text none = ""
option_text (some s) = String.◌∷◌ mark s

abbrev pub option_of : String → Option String
option_of String.[] = none
option_of (String.◌∷◌ c s) = some s

abbrev pub texts : List TrustRecordCsvRow → List String
texts [] = []
texts (row ∷ rows) =
    row.entity_id
    ∷ row.authority_id
    ∷ row.action
    ∷ row.resource
    ∷ flag_text row.recognized
    ∷ flag_text row.authorized
    ∷ option_text row.context
    ∷ row.record_type
    ∷ texts rows

abbrev pub rows_of : List String → List TrustRecordCsvRow
rows_of (a ∷ b ∷ c ∷ d ∷ e ∷ f ∷ g ∷ h ∷ rest) =
    record {
      entity_id = a;
      authority_id = b;
      action = c;
      resource = d;
      recognized = flag_of e;
      authorized = flag_of f;
      context = option_of g;
      record_type = h;
    }
    ∷ rows_of rest
rows_of _ = []

flag_lem : (b : Bool) → flag_of (flag_text b) ≡ b
flag_lem true = refl
flag_lem false = refl

option_lem : (o : Option String) → option_of (option_text o) ≡ o
option_lem none = refl
option_lem (some s) = refl

pub rows_of-texts : (rows : List TrustRecordCsvRow) → rows_of (texts rows) ≡ rows
rows_of-texts [] = refl
rows_of-texts (row ∷ rows) =
    rw
      (flag_lem row.recognized, flag_lem row.authorized, option_lem row.context, rows_of-texts rows)
      refl

-- A joined text has no white space at its ends.
trim_start-join : (ss : List String) → trim_start (join ss) ≡ join ss
unfolding trim_start
trim_start-join [] = refl
trim_start-join (String.[] ∷ ss) = refl
trim_start-join (String.◌∷◌ c s ∷ ss) = refl

trim_end_cons :
    (c : Char) (s : String) → trim_end s ≡ s → s ≢ "" → trim_end (String.◌∷◌ c s) ≡ String.◌∷◌ c s
unfolding trim_end
trim_end_cons c String.[] e h = absurd (h refl)
trim_end_cons c (String.◌∷◌ d s) e h = rw e refl

join_onto_full : (s t : String) → join_onto s t ≢ ""
join_onto_full String.[] t p = cc
join_onto_full (String.◌∷◌ c s) t p = cc

trim_end-join_onto :
    (s t : String) → trim_end t ≡ t → t ≢ "" → trim_end (join_onto s t) ≡ join_onto s t
trim_end-join_onto String.[] t e h = trim_end_cons _ t e h
trim_end-join_onto (String.◌∷◌ c s) t e h =
    trim_end_cons mark _ (trim_end_cons c _ (trim_end-join_onto s t e h) (join_onto_full s t)) full
  where
    full : String.◌∷◌ c (join_onto s t) ≢ ""
    full p = cc

join_full : (ss : List String) → join ss ≢ ""
join_full [] p = cc
join_full (s ∷ ss) p = join_onto_full s (join ss) p

trim_end-join : (ss : List String) → trim_end (join ss) ≡ join ss
trim_end-join [] = unfold trim_end in refl
trim_end-join (s ∷ ss) = trim_end-join_onto s (join ss) (trim_end-join ss) (join_full ss)

pub trim-join : (ss : List String) → trim (join ss) ≡ join ss
unfolding trim
trim-join ss = ap trim_end (trim_start-join ss) ∙ trim_end-join ss

-- What the reader's trimming leaves of a row
abbrev pub trimmed_text : Option String → Option String
trimmed_text none = none
trimmed_text (some s) = some (trim s)

abbrev pub trimmed : TrustRecordCsvRow → TrustRecordCsvRow
trimmed row = record row {
  entity_id = trim row.entity_id;
  authority_id = trim row.authority_id;
  action = trim row.action;
  resource = trim row.resource;
  context = trimmed_text row.context;
  record_type = trim row.record_type;
}

trimmed_text_lem :
    (o : Option String) → ((s : String) → o ≡ some s → trim s ≡ s) → trimmed_text o ≡ o
trimmed_text_lem none h = refl
trimmed_text_lem (some s) h = ap some (h s refl)

pub map-trimmed : (rows : List TrustRecordCsvRow) → All IsTrimmed rows → map trimmed rows ≡ rows
map-trimmed [] h = refl
map-trimmed (row ∷ rows) (h, hs) =
    rw
      (
        h.entity_id,
        h.authority_id,
        h.action,
        h.resource,
        h.record_type,
        trimmed_text_lem row.context h.context_text,
        map-trimmed rows hs,
      )
      refl

abbrev pub csv : Csv
csv = record {
  Writer = List TrustRecordCsvRow;
  new_writer = [];
  serialize = λ row rows. ok (rows ++ row ∷ []);
  into_inner = λ rows. ok (join (texts rows));
  deserialize = λ t. map ok (map trimmed (rows_of (parts false t)));
}

abbrev pub csv_law : IsCsv csv
csv_law = record {
  rows = λ rows. rows;
  text_of = λ rows. join (texts rows);
  add = λ row rows. rows ++ row ∷ [];
  rows_new = refl;
  rows_add = λ row rows. refl;
  serialize_add = λ row rows. refl;
  into_inner_text = λ rows. refl;
  deserialize_text = λ rs h.
      ap (λ t. map ok (map trimmed (rows_of (parts false t)))) (trim-join (texts rs))
      ∙ ap (λ l. map ok (map trimmed (rows_of l))) (parts-join (texts rs))
      ∙ ap (λ l. map ok (map trimmed l)) (rows_of-texts rs)
      ∙ ap (map ok) (map-trimmed rs h);
}

abbrev pub coding : ContextText
coding = record {
  Bytes = String;
  encode = λ t. String.◌∷◌ mark t;
  decode = option_of;
  from_utf8 = some;
  to_string = λ v. some (value_text v);
  from_str = value_of;
}

abbrev pub coding_law : IsContextText coding
coding_law = record {
  bytes = λ t. t;
  written = value_text;
  decode_encode = λ t. refl;
  from_utf8_bytes = λ t. refl;
  to_string_written = λ v. refl;
  from_str_written = λ v d. value_of-value_text v;
  encode_written = λ v p. cc;
}

-- A file that can always be written, and a clock that every write advances
abbrev pub Disk : Type 0
Disk = String × ℕ

abbrev pub disk_system : FileSystem Disk
disk_system = record {
  Metadata = ℕ;
  path_debug = "\"records.csv\"";
  path_display = "records.csv";
  metadata = λ d. ok d.1;
  modified = λ m. ok m;
  read_to_string = λ d. ok d.0;
  write = λ t d. (ok tt, (t, suc d.1));
}

abbrev pub disk_law : IsFileSystem disk_system
disk_law = record {
  contents = λ d. d.0;
  time = λ d. d.1;
  IsOnline = λ d. Unit;
  after_write = λ t d. (t, suc d.1);
  metadata_of = λ d. d.1;
  metadata_online = λ d o. refl;
  modified_time = λ d. refl;
  read_online = λ d o. refl;
  write_online = λ t d o. refl;
  contents_write = λ t d. refl;
  online_write = λ t d o. tt;
}
