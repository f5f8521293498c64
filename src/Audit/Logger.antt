-- ===== src/Audit/Logger.antt =====
-- trust-registry/src/audit/audit_logger.rs: the text of a log line, in the two formats. The
-- formatting of a time (`to_rfc3339`) is a parameter; the severity and the target of the line, which
-- the `tracing` crate handles, are left out.
pub mod Extra
use affinidi_trust_registry.Json.{Value, str, Fields, no_fields, obj, object, insert_field}
use affinidi_trust_registry.Audit.Model.{
  AuditLog, AuditStatus, success, failure, unauthorized, AuditOperation, AuditResource,
  audit_role_admin, status_text, operation_text,
}
use affinidi_trust_registry.Prelude.Text.{split}
use affinidi_trust_registry.Prelude.{
  ℕ, String, ◌<>◌, Option, none, some, List, [], ◌∷◌, ◌++◌, unwrap_or, ◌==◌, string_eq,
  if◌then◌else◌, ◌&&◌, ◌≡◌, arith,
}

-- `AuditLogFormat` of trust-registry/src/configs/didcomm.rs
pub data AuditLogFormat : Type 0 where
  text json : AuditLogFormat

abbrev na : String
na = "N/A"

pub record EmitInput : Type 0 where
  pub target : String
  pub operation : AuditOperation
  pub actor : String
  pub status : String
  pub resource : AuditResource
  pub extra : Option String
  pub thread_id : Option String
  pub timestamp : ℕ

-- `opt_to_string`, at the text of a new type
abbrev opt_to_string : Option String → String
opt_to_string o = unwrap_or o na

abbrev text_of {ℓ} : {A : Type ℓ} → (A → String) → Option A → Option String
text_of f none = none
text_of f (some a) = some (f a)

-- `resource_text_fields`
unfoldable pub resource_text_fields : AuditResource → String × String × String × String
resource_text_fields r = (
  opt_to_string (text_of (λ i. i.text) r.entity_id),
  opt_to_string (text_of (λ i. i.text) r.authority_id),
  opt_to_string (text_of (λ i. i.text) r.action),
  opt_to_string (text_of (λ i. i.text) r.resource),
)

-- `resource_json_value`
unfoldable pub resource_json_value : AuditResource → Value
unfolding resource_text_fields
resource_json_value r =
    let (entity_id, authority_id, action, resource) = resource_text_fields r in
    object (
      ("entity_id", str entity_id)
      ∷ ("authority_id", str authority_id)
      ∷ ("action", str action)
      ∷ ("resource", str resource)
      ∷ [])

-- The slice `[..2]` of the pieces of the extra text: a panic (`none`) where there are fewer.
abbrev pub key_and_value : List String → Option (String × String)
key_and_value (k ∷ v ∷ _) = some (k, v)
key_and_value _ = none

abbrev with_extra : Option String → Fields → Option Fields
with_extra none map = some map
with_extra (some extra) map = elim (key_and_value (split b'=' extra)) [
  | none ↦ none
  | some (k, v) ↦ some (insert_field k (str v) map)
]

unfoldable pub emit_input : AuditLog → EmitInput
unfolding status_text
emit_input log = record {
  target = log.target;
  operation = log.operation;
  actor = log.actor;
  status = status_text log.status;
  resource = log.resource;
  extra = log.extra;
  thread_id = log.thread_id;
  timestamp = log.timestamp;
}

-- The map of `emit_json` before the extra entry
unfoldable pub head_fields : EmitInput → Fields
unfolding operation_text resource_json_value
head_fields input =
    let map = insert_field "role" (str audit_role_admin) no_fields in
    let map' = insert_field "actor" (str input.actor) map in
    let map'' = insert_field "operation" (str (operation_text input.operation)) map' in
    let map3 = insert_field "status" (str input.status) map'' in
    insert_field "resource" (resource_json_value input.resource) map3

-- The text of `emit_text` in front of the bar, and the entry that its `match` hands on
unfoldable pub text_and_extra : EmitInput → String × Option (String × String)
unfolding operation_text
text_and_extra input =
    let line =
      audit_role_admin
      <> ": "
      <> operation_text input.operation
      <> " operation by "
      <> input.actor
      <> " - " in
    let other : String × Option (String × String) = (line <> input.status, none) in
    elim input.extra [
      | none ↦ if input.status == "SUCCESS" then (line <> "SUCCESS", none) else other
      | some extra ↦
          if input.status == "FAILURE"
          then (line <> "FAILURE: " <> extra, some ("audit.error", extra))
          else if input.status == "UNAUTHORIZED"
          then (line <> "UNAUTHORIZED: " <> extra, some ("audit.reason", extra))
          else other
    ]

abbrev extra_part : Option (String × String) → List String
extra_part none = []
extra_part (some (key, val)) = (key <> "=" <> val) ∷ []

-- `log_parts.join(" ")`
abbrev join_spaces : List String → String
join_spaces [] = ""
join_spaces (part ∷ []) = part
join_spaces (part ∷ next ∷ parts) = part <> " " <> join_spaces (next ∷ parts)

module _ (to_rfc3339 : ℕ → String) where
  -- The entries after the extra one
  unfoldable pub tail_fields : EmitInput → Fields → Fields
  tail_fields input map =
      insert_field "thread_id" (str (opt_to_string input.thread_id))
        (insert_field "timestamp" (str (to_rfc3339 input.timestamp)) map)

  -- The object that `emit_json` logs; `none` is a panic.
  unfoldable pub emit_json : EmitInput → Option Value
  unfolding head_fields tail_fields
  emit_json input = elim (with_extra input.extra (head_fields input)) [
    | none ↦ none
    | some map ↦ some (obj (tail_fields input map))
  ]

  unfoldable pub log_parts : EmitInput → List String
  unfolding resource_text_fields operation_text text_and_extra
  log_parts input =
      let (entity_id, authority_id, action, resource) = resource_text_fields input.resource in
      (("audit.role=" <> audit_role_admin)
        ∷ ("audit.actor=" <> input.actor)
        ∷ ("audit.operation=" <> operation_text input.operation)
        ∷ ("audit.status=" <> input.status)
        ∷ ("audit.resource.entity_id=" <> entity_id)
        ∷ ("audit.resource.authority_id=" <> authority_id)
        ∷ ("audit.resource.action=" <> action)
        ∷ ("audit.resource.resource=" <> resource)
        ∷ ("audit.timestamp=" <> to_rfc3339 input.timestamp)
        ∷ ("audit.thread_id=" <> opt_to_string input.thread_id)
        ∷ [])
      ++ extra_part (text_and_extra input).1

  unfoldable pub emit_text : EmitInput → String
  unfolding log_parts text_and_extra
  emit_text input = (text_and_extra input).0 <> " | " <> join_spaces (log_parts input)

  -- `log` of `BaseAuditLogger`: the line that is written, or `none` for a panic
  unfoldable pub log : (to_line : Value → String) → AuditLogFormat → AuditLog → Option String
  unfolding emit_input emit_json emit_text
  log to_line json entry = elim (emit_json (emit_input entry)) [
    | none ↦ none
    | some v ↦ some (to_line v)
  ]
  log to_line text entry = some (emit_text (emit_input entry))
