-- ===== src/Core/Exceptions.antt =====
-- app/core/exceptions.py: the exceptions that the application declares, as the HTTPExceptions that
-- they are.
use api_gateway_with_abuse_d.Prelude.{ℕ, String, [], ◌∷◌, str}
use api_gateway_with_abuse_d.World.{Exn, http_error}

pub data AppError : Type 0 where
  rate_limit_exceeded_error : (retry_after : ℕ) → AppError
  unauthorized_error : (detail : String) → AppError
  forbidden_error : (detail : String) → AppError
  abuse_detected_error : (reason : String) → AppError

abbrev pub default_retry_after : ℕ
default_retry_after = 60

-- The details of the other three, where none is given.
abbrev pub default_unauthorized : String
default_unauthorized = "Not authenticated"

abbrev pub default_forbidden : String
default_forbidden = "Access denied"

abbrev pub default_reason : String
default_reason = "Abusive behavior detected"

abbrev pub http_exception : AppError → Exn
http_exception (rate_limit_exceeded_error retry_after) =
    http_error 429 "Rate limit exceeded — please retry after the indicated period"
      (("Retry-After", str retry_after) ∷ [])
http_exception (unauthorized_error detail) =
    http_error 401 detail (("WWW-Authenticate", "Bearer") ∷ [])
http_exception (forbidden_error detail) = http_error 403 detail []
http_exception (abuse_detected_error reason) = http_error 403 reason []
