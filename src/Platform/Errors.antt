-- ===== src/Platform/Errors.antt =====
-- src/platform/errors.ts. A failure that a command throws is a `CoreError`, the plain `Error` with which
-- a store refuses a write, or one of the signals by which a service aborts its own transaction.
use wasla_core.Base.{
  ◌≡◌, refl, ◌⊎◌, inl, inr, ℕ, String, Option, none, some, Bool, true, false, ◌||◌, List, [], ltb,
  is_some, if◌then◌else◌,
}
use wasla_core.Base.Values.{Value}

pub data ErrorCode : Type 0 where
  invalid_request unauthenticated forbidden_request not_found_entity conflicting : ErrorCode
  rate_limited_request internal unavailable_service : ErrorCode

-- `STATUS`
unfoldable pub status_of : ErrorCode → ℕ
status_of invalid_request = 400
status_of unauthenticated = 401
status_of forbidden_request = 403
status_of not_found_entity = 404
status_of conflicting = 409
status_of rate_limited_request = 429
status_of internal = 500
status_of unavailable_service = 503

-- `RETRYABLE.has(code)`
unfoldable pub retryable_code : ErrorCode → Bool
retryable_code unavailable_service = true
retryable_code internal = true
retryable_code rate_limited_request = true
retryable_code _ = false

pub record CoreError : Type 0 where
  pub code : ErrorCode
  pub message : String
  pub details : List (String × Value)
  pub retry_after_seconds : Option ℕ

pub data Failure : Type 0 where
  core : CoreError → Failure
  plain : String → Failure
  -- `TransitionLost` and `IntakeLost` of src/modules/fulfillment/service.ts
  transition_lost : ℕ → Failure
  intake_lost : String → Failure

pub data Result {ℓ} (A : Type ℓ) : Type ℓ where
  ok : A → Result A
  err : Failure → Result A

abbrev pub core_error : ErrorCode → String → CoreError
core_error code message = record {
  code = code;
  message = message;
  details = [];
  retry_after_seconds = none;
}

abbrev pub invalid : String → Failure
invalid message = core (core_error invalid_request message)

abbrev pub not_found : String → Failure
not_found message = core (core_error not_found_entity message)

abbrev pub conflict : String → Failure
conflict message = core (core_error conflicting message)

-- The constructor of `CoreError`: a stated time is a whole number of seconds, at least 1.
unfoldable pub new_core_error :
    ErrorCode → String → List (String × Value) → Option ℕ → Result CoreError
new_core_error code message details none =
    ok (record { code = code; message = message; details = details; retry_after_seconds = none })
new_core_error code message details (some seconds) =
    if ltb seconds 1
    then err (plain "retryAfterSeconds must be a whole number of seconds not below 1")
    else ok (record {
      code = code;
      message = message;
      details = details;
      retry_after_seconds = some seconds;
    })

-- `get retryable`
unfoldable pub is_retryable : CoreError → Bool
unfolding retryable_code
is_retryable e = is_some e.retry_after_seconds || retryable_code e.code

-- `get headers`: the value of `retry-after`, where the header is sent.
unfoldable pub retry_after_header : CoreError → Option ℕ
retry_after_header e = e.retry_after_seconds

pub Result-cases :
    {A : Type 0} (r : Result A) → ((a : A) × (r ≡ ok a)) ⊎ ((e : Failure) × (r ≡ err e))
Result-cases (ok a) = inl (a, refl)
Result-cases (err e) = inr (e, refl)
