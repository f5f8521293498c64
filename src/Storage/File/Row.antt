-- ===== src/Storage/File/Row.antt =====
-- `TrustRecordCsvRow` of trust-registry/src/storage/adapters/csv_file_storage.rs: a record as a row
-- of the file. Base64, the check that bytes are UTF-8 and the text of a JSON value are parameters.
use affinidi_trust_registry.Domain.RecordType
use affinidi_trust_registry.Domain.RecordType.{RecordType, from_str, record_type_text}
use affinidi_trust_registry.Domain.TrustRecord.{TrustRecord, is_recognized, is_authorized}
use affinidi_trust_registry.Domain.Builder
use affinidi_trust_registry.Domain.Builder.{TrustRecordBuilder, build}
use affinidi_trust_registry.Json.{Value, is_object, is_array}
use affinidi_trust_registry.Prelude.{
  String, ◌<>◌, Bool, ◌||◌, Option, none, some, and_then, unwrap_or, Result, map_err, ◌>>=◌,
  if◌then◌else◌,
}

pub record TrustRecordCsvRow : Type 0 where
  pub entity_id : String
  pub authority_id : String
  pub action : String
  pub resource : String
  pub recognized : Bool
  pub authorized : Bool
  pub context : Option String
  pub record_type : String

-- `STANDARD` of the base64 crate on the bytes of a text, `String::from_utf8`, and `serde_json` on
-- values. Of an error the program looks at nothing.
pub record ContextText : Type 1 where
  pub Bytes : Type 0
  pub encode : String → String
  pub decode : String → Option Bytes
  pub from_utf8 : Bytes → Option String
  pub to_string : Value → Option String
  pub from_str : String → Option Value

module _ (codec : ContextText) where
  unfoldable pub parse_context : Option String → Option Value
  parse_context none = none
  parse_context (some c) = and_then (and_then (codec.decode c) codec.from_utf8) codec.from_str

  -- `TrustRecordCsvRow::from_record`: only an object or an array is written as a context.
  unfoldable pub from_record : TrustRecord → TrustRecordCsvRow
  unfolding is_recognized is_authorized
  from_record r =
      let value = r.context.value in
      let context =
        if is_object value || is_array value
        then some (codec.encode (unwrap_or (codec.to_string value) ""))
        else none in
      record {
        entity_id = r.entity_id.text;
        authority_id = r.authority_id.text;
        action = r.action.text;
        resource = r.resource.text;
        recognized = is_recognized r;
        authorized = is_authorized r;
        context = context;
        record_type = record_type_text r.record_type;
      }

  abbrev with_context : Option Value → TrustRecordBuilder → TrustRecordBuilder
  with_context none b = b
  with_context (some c) b = Builder.context (record { value = c }) b

  -- `into_record`: the error is a text.
  unfoldable pub into_record : TrustRecordCsvRow → Result TrustRecord String
  unfolding build Builder.new Builder.entity_id Builder.authority_id Builder.action Builder.resource
      Builder.recognized Builder.authorized Builder.record_type Builder.context
  into_record row =
      let ctx = parse_context row.context in
      map_err RecordType.error_text (RecordType.from_str row.record_type) >>= λ kind.
      let builder = Builder.record_type kind (
        Builder.authorized row.authorized (
          Builder.recognized row.recognized (
            Builder.resource (record { text = row.resource })
              (Builder.action (record { text = row.action })
                (Builder.authority_id (record { text = row.authority_id })
                  (Builder.entity_id (record { text = row.entity_id }) Builder.new)))))) in
      map_err (λ e. "invalid trust record: " <> RecordType.error_text e)
        (build (with_context ctx builder))
