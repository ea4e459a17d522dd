-- ===== src/Middleware/Chain/Handlers.antt =====
-- app/main.py: the two handlers that it registers do for their exceptions what FastAPI's own handler
-- of an HTTPException does, so that one handler serves for all.
use api_gateway_with_abuse_d.Prelude.{ℕ, String, ◌≡◌, refl, List, []}
use api_gateway_with_abuse_d.Platform.{Platform}
use api_gateway_with_abuse_d.World.{World, Exn, http_error, Result, ok, err}
use api_gateway_with_abuse_d.World.Http.{Request, Response, error_response}
use api_gateway_with_abuse_d.World.Exec.{raise}
use api_gateway_with_abuse_d.Core.Exceptions.{
  AppError, rate_limit_exceeded_error, unauthorized_error, forbidden_error, abuse_detected_error,
  http_exception,
}
use api_gateway_with_abuse_d.Middleware.RateLimit.{rate_limit_exceeded}
use api_gateway_with_abuse_d.Middleware.Chain.{exception_handlers}

-- rate_limit_handler passes the headers on, abuse_handler does not; the other two classes have no
-- handler of their own.
abbrev pub rate_limit_handler : ℕ → String → List (String × String) → Response
rate_limit_handler status detail headers = error_response status detail headers

abbrev pub abuse_handler : ℕ → String → List (String × String) → Response
abuse_handler status detail headers = error_response status detail []

abbrev pub handler_of : AppError → ℕ → String → List (String × String) → Response
handler_of (rate_limit_exceeded_error retry_after) = rate_limit_handler
handler_of (abuse_detected_error reason) = abuse_handler
handler_of _ = error_response

abbrev handled : (ℕ → String → List (String × String) → Response) → Exn → Result Response
handled handler (http_error status detail headers) = ok (handler status detail headers)
handled handler e = err e

-- A route that raises one of the application's exceptions is answered by the handler of its class.
pub exception_handlers-handled :
    (p : Platform) (e : AppError) (request : Request) (w : World p)
    → exception_handlers (λ r. raise (http_exception e)) request w
      ≡ (handled (handler_of e) (http_exception e), w)
unfolding exception_handlers
exception_handlers-handled p (rate_limit_exceeded_error retry_after) request w = refl
exception_handlers-handled p (unauthorized_error detail) request w = refl
exception_handlers-handled p (forbidden_error detail) request w = refl
exception_handlers-handled p (abuse_detected_error reason) request w = refl

-- What the rate limit middleware answers itself is what the handler would.
pub rate_limit_handler-exceeded :
    (retry_after : ℕ)
    → handled rate_limit_handler (http_exception (rate_limit_exceeded_error retry_after))
      ≡ ok (rate_limit_exceeded retry_after)
rate_limit_handler-exceeded retry_after = refl
