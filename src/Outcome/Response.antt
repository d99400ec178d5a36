-- ===== src/Outcome/Response.antt =====
-- The answer to a call that throws: src/plugins/errorHandler.ts. What is thrown is a record of what
-- the handler looks at, which is an object; the issues of a `ZodError` are a type of their own.
use flagraft.Prelude.{
  ℕ, Bool, true, false, ◌&&◌, Option, none, some, String, ◌==◌, ◌≡◌, ◌⊎◌, refl, leb, or_else,
  Bool-cases, Option-cases, inl, inr, if◌then◌else◌,
}

-- `none` stands for a property that is missing or of another type; `issues` are a `ZodError`'s.
pub record Thrown (Issues : Type 0) : Type 0 where
  pub issues : Option Issues
  pub code : Option String
  pub validation_is_array : Bool
  pub is_app_error : Bool
  pub status_code : Option ℕ
  pub error : Option String
  pub message : Option String

pub record ErrorBody (Issues : Type 0) : Type 0 where
  pub error : String
  pub message : Option String
  pub status_code : ℕ
  pub issues : Option Issues

pub record ErrorResponse (Issues : Type 0) : Type 0 where
  pub status_code : ℕ
  pub body : ErrorBody Issues

abbrev is_text : String → Option String → Bool
is_text s none = false
is_text s (some t) = t == s

module _ {Issues : Type 0} where
  unfoldable pub is_pg_unique_error : Thrown Issues → Bool
  is_pg_unique_error e = is_text "23505" e.code

  unfoldable pub is_body_too_large_error : Thrown Issues → Bool
  is_body_too_large_error e = is_text "FST_ERR_CTP_BODY_TOO_LARGE" e.code

  abbrev pub response : ℕ → String → Option String → Option Issues → ErrorResponse Issues
  response status_code error message issues = record {
    status_code = status_code;
    body = record { error = error; message = message; status_code = status_code; issues = issues };
  }

  abbrev pub internal_error : ErrorResponse Issues
  internal_error = response 500 "InternalServerError" (some "Internal error") none

  abbrev client_error_of : Thrown Issues → ℕ → ErrorResponse Issues
  client_error_of e status_code =
      response status_code (or_else e.error "BadRequest")
        (some (or_else e.message "Request rejected")) none

  unfoldable pub to_client_error : Thrown Issues → Option (ErrorResponse Issues)
  to_client_error e = elim e.status_code [
    | none ↦ none
    | some n ↦ if leb 400 n && leb n 499 then some (client_error_of e n) else none
  ]

  -- An `AppError` has a status and a code.
  abbrev app_response : Thrown Issues → ErrorResponse Issues
  app_response e = response (or_else e.status_code 0) (or_else e.code "") e.message none

  unfoldable pub to_response : Thrown Issues → ErrorResponse Issues
  unfolding is_pg_unique_error is_body_too_large_error to_client_error
  to_response e = elim e.issues [
    | some issues ↦ response 400 "ValidationError" (some "Validation error") (some issues)
    | none ↦
        if is_pg_unique_error e
        then response 409 "Conflict" (some "Resource already exists") none
        else if e.validation_is_array
        then response 400 "ValidationError" e.message none
        else if is_body_too_large_error e
        then response 413 "PayloadTooLarge" (some "Request body is too large") none
        else if e.is_app_error
        then app_response e
        else or_else (to_client_error e) internal_error
  ]

  -- A status from 400 to 499.
  abbrev pub IsClientError : ErrorResponse Issues → Type 0
  IsClientError r = (leb 400 r.status_code && leb r.status_code 499) ≡ true

  to_client_error_lem :
      (e : Thrown Issues)
      → IsClientError (or_else (to_client_error e) internal_error)
        ⊎ (or_else (to_client_error e) internal_error ≡ internal_error)
  unfolding to_client_error
  to_client_error_lem e = elim (Option-cases e.status_code) [
    | inl h ↦ inr (rw (to_client_error, h) refl)
    | inr (n, h) ↦ elim (Bool-cases (leb 400 n && leb n 499)) [
      | inl inside ↦ inl (rw (to_client_error, h, inside) inside)
      | inr outside ↦ inr (rw (to_client_error, h, outside) refl)
    ]
  ]

  -- Nothing of an error that is not the service's own is told with a status from 500 on: whatever is
  -- thrown that is no `AppError`, the answer has a status from 400 to 499, or is the fixed one.
  pub to_response_foreign :
      (e : Thrown Issues)
      → e.is_app_error ≡ false
      → IsClientError (to_response e) ⊎ (to_response e ≡ internal_error)
  unfolding to_response
  to_response_foreign e foreign = elim (Option-cases e.issues) [
    | inr (issues, h) ↦ inl (rw (to_response, h) refl)
    | inl h ↦ elim (Bool-cases (is_pg_unique_error e)) [
      | inl unique ↦ inl (rw (to_response, h, unique) refl)
      | inr other ↦ elim (Bool-cases e.validation_is_array) [
        | inl invalid ↦ inl (rw (to_response, h, other, invalid) refl)
        | inr valid ↦ elim (Bool-cases (is_body_too_large_error e)) [
          | inl large ↦ inl (rw (to_response, h, other, valid, large) refl)
          | inr small ↦ rw (to_response, h, other, valid, small, foreign) (to_client_error_lem e)
        ]
      ]
    ]
  ]
