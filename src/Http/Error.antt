-- ===== src/Http/Error.antt =====
-- trust-registry/src/http/error.rs: the errors of the handlers and their responses. An
-- `anyhow::Error` is the text that it displays, and a status is its number. What is logged of an
-- error is not modelled.
use affinidi_trust_registry.Json.{Value, unsigned, str, num, obj, no_fields, insert_field}
use affinidi_trust_registry.Prelude.{ℕ, String, Option}

pub data AppError : Type 0 where
  bad_request not_found internal : (internal_error : String) (details : Option Value) → AppError

-- The status, the title, the message, the details and the internal error
unfoldable pub into_parts : AppError → ℕ × String × String × Option Value × String
into_parts (bad_request internal_error details) =
    (400, "bad_request", "The request missing required fields", details, internal_error)
into_parts (not_found internal_error details) =
    (404, "not_found", "The requested resource could not be found", details, internal_error)
into_parts (internal internal_error details) =
    (500, "internal_error", "An unexpected error occurred", details, internal_error)

pub record Response : Type 0 where
  pub status : ℕ
  pub body : Value

-- The payload names neither the details nor the internal error.
unfoldable pub into_response : AppError → Response
unfolding into_parts insert_field
into_response e =
    let (status, title, message, details, internal_error) = into_parts e in
    let payload = insert_field "title" (str title) no_fields in
    let payload' = insert_field "type" (str "about:blank") payload in
    let payload'' = insert_field "code" (num (unsigned status)) payload' in
    record { status = status; body = obj payload'' }
