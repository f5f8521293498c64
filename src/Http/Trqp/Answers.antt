-- ===== src/Http/Trqp/Answers.antt =====
-- What the endpoints answer over a repository that implements the registry.
use affinidi_trust_registry.Domain.Ids.{TrustRecordIds}
use affinidi_trust_registry.Domain.Context.{Context, merge}
use affinidi_trust_registry.Domain.TrustRecord.{
  TrustRecord, none_recognized, none_authorized, none_authorized,
}
use affinidi_trust_registry.Storage.Repository.{TrustRecordAdminRepository, from_ids}
use affinidi_trust_registry.Storage.Key.{RecordKey, from_query}
use affinidi_trust_registry.Storage.Registry.{Registry, Implements}
use affinidi_trust_registry.Json.{Value, str, num, unsigned, object}
use affinidi_trust_registry.Http.Error.{
  AppError, bad_request, not_found, internal, Response, into_parts, into_response,
}
use affinidi_trust_registry.Http.Trqp.{
  handle_trqp_recognition, with_context, OutputDto, InputDto, JsonRejection, with_context, rejected,
  missing, handle_trqp_authorization, handle_trqp_recognition, respond,
}
use affinidi_trust_registry.Prelude.{
  ℕ, String, ◌<>◌, ◌≡◌, refl, Option, none, some, [], ◌∷◌, Result, ok, err, Option-cases, inl, inr,
  String-discrete,
}

abbrev pub ids_key : TrustRecordIds → RecordKey
ids_key ids = record {
  entity_id = ids.entity_id;
  authority_id = ids.authority_id;
  action = ids.action;
  resource = ids.resource;
}

-- The body of an error's response
abbrev pub problem : ℕ → String → Response
problem status title = record {
  status = status;
  body =
      object
        (("title", str title) ∷ ("type", str "about:blank") ∷ ("code", num (unsigned status)) ∷ []);
}

-- A response tells the status and the title of an error, and neither details nor internal error.
into_response_lem : (e : AppError) → into_response e ≡ problem (into_parts e).0 (into_parts e).1
unfolding into_response String-discrete
into_response_lem (bad_request internal_error details) = refl
into_response_lem (not_found internal_error details) = refl
into_response_lem (internal internal_error details) = refl

abbrev pub merged_with : Option Context → Context → Context
merged_with none c = c
merged_with (some extra) c = merge c extra

with_context_lem :
    (c : Option Context) (r : TrustRecord)
    → with_context c r ≡ record r { context = merged_with c r.context }
unfolding with_context
with_context_lem none r = refl
with_context_lem (some extra) r = refl

module _ (to_value : OutputDto → Value) (requested_at evaluated_at : String) where
  abbrev pub output_of : TrustRecord → String → Response
  output_of r message = record {
    status = 200;
    body = to_value record {
      trust_record = r;
      time_requested = requested_at;
      time_evaluated = evaluated_at;
      message = message;
    };
  }

  -- The answers, read off the registry
  abbrev pub authorization_answer : Result InputDto JsonRejection → Registry → Response
  authorization_answer (err e) reg = problem 400 "bad_request"
  authorization_answer (ok input) reg = elim (reg (ids_key input.ids)) [
    | none ↦ problem 404 "not_found"
    | some r ↦
        output_of (record r { recognized = none; context = merged_with input.context r.context })
          (r.entity_id.text <> " authorized to " <> r.action.text <> "+" <> r.resource.text
            <> " by " <> r.authority_id.text)
  ]

  abbrev pub recognition_answer : Result InputDto JsonRejection → Registry → Response
  recognition_answer (err e) reg = problem 400 "bad_request"
  recognition_answer (ok input) reg = elim (reg (ids_key input.ids)) [
    | none ↦ problem 404 "not_found"
    | some r ↦
        output_of (record r { authorized = none; context = merged_with input.context r.context })
          (r.entity_id.text <> " recognized by " <> r.authority_id.text)
  ]

  -- The endpoint answers, and leaves a valid store that stands for the same registry.
  pub record Answers {S : Type 0} (IsValid : S → Type 0) (view : S → Registry) (answer : Response)
      (reg : Registry) (after : Result OutputDto AppError × S) : Type 0 where
    pub response : respond to_value after.0 ≡ answer
    pub views : view after.1 ≡ reg
    pub valid : IsValid after.1

  module _ {S : Type 0} {IsValid : S → Type 0} {view : S → Registry}
      (repo : TrustRecordAdminRepository S) (impl : Implements IsValid view repo) where
    -- What the search finds under the identifiers of a request
    found :
        (ids : TrustRecordIds) (s : S)
        → IsValid s
        → (repo.queries.find_by_query (from_ids ids) s).0 ≡ ok (view s (ids_key ids))
    unfolding from_ids from_query
    found ids s v = (impl.find (from_ids ids) s tt v).result

    -- The authorization endpoint answers each request from the registry that the store stands for,
    -- and leaves that registry: 400 for a body that cannot be read, 404 for a key without a record,
    -- and else 200 with the record, whose `recognized` is hidden and whose context the request's
    -- context has been merged into, the two times, and a message that names all four identifiers.
    pub handle_trqp_authorization-Answers :
        (payload : Result InputDto JsonRejection) (s : S)
        → IsValid s
        → Answers IsValid view
            (authorization_answer payload (view s))
            (view s)
            (handle_trqp_authorization repo.queries requested_at evaluated_at payload s)
    unfolding handle_trqp_authorization respond
    handle_trqp_authorization-Answers (err e) s v = record {
      response = unfold rejected into_parts in into_response_lem (rejected e);
      views = refl;
      valid = v;
    }
    handle_trqp_authorization-Answers (ok input) s v =
        let m = impl.find (from_ids input.ids) s tt v in
        elim (Option-cases (view s (ids_key input.ids))) [
          | inl absent ↦
              rw (found input.ids s v, absent, authorization_answer)
                (record {
                  response = unfold missing into_parts in into_response_lem missing;
                  views = m.view_after;
                  valid = m.valid_after;
                })
          | inr (r, present) ↦
              rw
                (
                  found input.ids s v,
                  present,
                  authorization_answer,
                  with_context_lem input.context r,
                )
                (record {
                  response = unfold none_recognized in refl;
                  views = m.view_after;
                  valid = m.valid_after;
                })
        ]

    -- The recognition endpoint answers in the same way, except that the record's `authorized` is the
    -- one hidden, and that the message names the entity and the authority.
    pub handle_trqp_recognition-Answers :
        (payload : Result InputDto JsonRejection) (s : S)
        → IsValid s
        → Answers IsValid view
            (recognition_answer payload (view s))
            (view s)
            (handle_trqp_recognition repo.queries requested_at evaluated_at payload s)
    unfolding handle_trqp_recognition respond
    handle_trqp_recognition-Answers (err e) s v = record {
      response = unfold rejected into_parts in into_response_lem (rejected e);
      views = refl;
      valid = v;
    }
    handle_trqp_recognition-Answers (ok input) s v =
        let m = impl.find (from_ids input.ids) s tt v in
        elim (Option-cases (view s (ids_key input.ids))) [
          | inl absent ↦
              rw (found input.ids s v, absent, recognition_answer)
                (record {
                  response = unfold missing into_parts in into_response_lem missing;
                  views = m.view_after;
                  valid = m.valid_after;
                })
          | inr (r, present) ↦
              rw
                (found input.ids s v, present, recognition_answer, with_context_lem input.context r)
                (record {
                  response = unfold none_authorized in refl;
                  views = m.view_after;
                  valid = m.valid_after;
                })
        ]
