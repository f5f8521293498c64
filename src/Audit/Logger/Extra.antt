-- ===== src/Audit/Logger/Extra.antt =====
-- What of the error message, or of the reason, reaches the JSON line.
use Prim.Native.Char.{Char}
use text.Mathlib.TextLemmas.{append_assoc, nil-append, cons-append}
use text.Mathlib.TextEquality.{eq_iff}
use affinidi_trust_registry.Json.{Value, str, obj, get_key, insert_field}
use affinidi_trust_registry.Json.Laws.{get_field-insert_field}
use affinidi_trust_registry.Audit.Model.{AuditLog, build_failure, build_unauthorized}
use affinidi_trust_registry.Audit.Logger.{
  EmitInput, key_and_value, emit_json, emit_input, head_fields, tail_fields,
}
use affinidi_trust_registry.Prelude.Text.{split}
use affinidi_trust_registry.Prelude.Text.Laws.{lacks, before, split-append, split_head}
use affinidi_trust_registry.Prelude.{
  ℕ, String, ◌<>◌, ◌≡◌, ◌≢◌, ◌∙◌, refl, ap, true, some, arith, unwrap_or, String-discrete,
  string_eq,
}

abbrev equals_sign : Char
equals_sign = Char.char 61 tt

equals-append : (k m : String) → k <> "=" <> m ≡ k <> String.◌∷◌ equals_sign m
equals-append k m =
    ap (λ t. k <> t)
      (cons-append equals_sign "" m ∙ ap (λ t. String.◌∷◌ equals_sign t) (nil-append m))

-- The key and the value that the extra text is cut into
key_and_value-split :
    (k m : String)
    → lacks b'=' k ≡ true
    → key_and_value (split b'=' (k <> "=" <> m)) ≡ some (k, before b'=' m)
key_and_value-split k m h =
    let (rest, e) = split_head b'=' m in
    rw (equals-append k m, split-append b'=' k equals_sign m h refl, e) refl

error_ne_timestamp : ◌≢◌ {A = String} "audit.error" "timestamp"
error_ne_timestamp = ground (arith, eq_iff "audit.error" "timestamp")

error_ne_thread : ◌≢◌ {A = String} "audit.error" "thread_id"
error_ne_thread = ground (arith, eq_iff "audit.error" "thread_id")

reason_ne_timestamp : ◌≢◌ {A = String} "audit.reason" "timestamp"
reason_ne_timestamp = ground (arith, eq_iff "audit.reason" "timestamp")

reason_ne_thread : ◌≢◌ {A = String} "audit.reason" "thread_id"
reason_ne_thread = ground (arith, eq_iff "audit.reason" "thread_id")

module _ (to_rfc3339 : ℕ → String) where
  emit_json_extra :
      (input : EmitInput) (k m : String)
      → lacks b'=' k ≡ true
      → k ≢ "timestamp"
      → k ≢ "thread_id"
      → input.extra ≡ some (k <> "=" <> m)
      → (v : Value) × (emit_json to_rfc3339 input ≡ some v)
        × (get_key k v ≡ some (str (before b'=' m)))
  unfolding emit_json get_key
  emit_json_extra input k m h n n' e =
      let map = insert_field k (str (before b'=' m)) (head_fields input) in
      let time = str (to_rfc3339 input.timestamp) in
      let thread = str (unwrap_or input.thread_id "N/A") in
      (
        obj (tail_fields to_rfc3339 input map),
        ground (arith, key_and_value-split k m),
        ground (
          arith,
          get_field-insert_field k "thread_id" thread (insert_field "timestamp" time map),
          get_field-insert_field k "timestamp" time map,
          get_field-insert_field k k (str (before b'=' m)) (head_fields input),
        ),
      )

  -- The JSON line of a failure is always written, and its entry `audit.error` is the error message
  -- up to the first `=` of it; so it is for the line of an unauthorized request and its entry
  -- `audit.reason`.
  pub emit_json-built :
      (now : ℕ) (message : String) (b : AuditLog)
      → ((v : Value) × (emit_json to_rfc3339 (emit_input (build_failure now message b)) ≡ some v)
          × (get_key "audit.error" v ≡ some (str (before b'=' message))))
        × ((v : Value) × (emit_json to_rfc3339 (emit_input (build_unauthorized now message b))
              ≡ some v)
            × (get_key "audit.reason" v ≡ some (str (before b'=' message))))
  unfolding lacks emit_input build_failure build_unauthorized String-discrete
  emit_json-built now message b = (
    emit_json_extra (emit_input (build_failure now message b)) "audit.error" message refl
        error_ne_timestamp error_ne_thread (ap some (append_assoc "audit.error" "=" message)),
    emit_json_extra (emit_input (build_unauthorized now message b)) "audit.reason" message refl
        reason_ne_timestamp reason_ne_thread (ap some (append_assoc "audit.reason" "=" message)),
  )
