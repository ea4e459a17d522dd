-- ===== src/Middleware/RateLimit.antt =====
-- app/middleware/rate_limit.py, and RateLimitExceededError of app/core/exceptions.py
pub mod Log
use api_gateway_with_abuse_d.Prelude.{ℕ, String, List, [], ◌∷◌, if◌then◌else◌, str}
use api_gateway_with_abuse_d.Platform.{Platform}
use api_gateway_with_abuse_d.Config.{Settings}
use api_gateway_with_abuse_d.Text.{is_one_of}
use api_gateway_with_abuse_d.World.{Exec, rate_limit_rejection}
use api_gateway_with_abuse_d.World.Http.{Request, Response, or_else, error_response, with_header}
use api_gateway_with_abuse_d.World.Exec.{pure, inc, ◌>>=◌, ◌>>◌}
use api_gateway_with_abuse_d.Services.RateLimiter.{check_rate_limit}

abbrev pub excluded_paths : List String
excluded_paths =
    "/health" ∷ "/metrics" ∷ "/docs" ∷ "/openapi.json" ∷ "/redoc" ∷ "/auth/register" ∷ []

-- The response made from RateLimitExceededError(retry_after).
abbrev pub rate_limit_exceeded : ℕ → Response
rate_limit_exceeded retry_after =
    error_response 429 "Rate limit exceeded — please retry after the indicated period"
      (("Retry-After", str retry_after) ∷ [])

abbrev pub limited_client : Request → String
limited_client request = or_else request.state.client_id (or_else request.host "127.0.0.1")

abbrev pub reject : (p : Platform) → Settings → String → Exec p Response
reject p settings client_id = do
  inc p (rate_limit_rejection client_id)
  pure (rate_limit_exceeded settings.rate_limit_window_seconds)

abbrev pub admit : {p : Platform} → (Request → Exec p Response) → Request → ℕ → Exec p Response
admit call_next request remaining = do
  response ← call_next request
  pure (with_header "X-RateLimit-Remaining" (str remaining) response)

-- RateLimitMiddleware.dispatch
unfoldable pub rate_limit_dispatch :
    (p : Platform) → Settings → (Request → Exec p Response) → Request → Exec p Response
rate_limit_dispatch p settings call_next request =
    let checked = (do
      answer ←
          check_rate_limit p (limited_client request) settings.rate_limit_requests
            settings.rate_limit_window_seconds
      if answer.0
          then admit call_next request answer.1
          else reject p settings (limited_client request)) in
    if is_one_of request.path excluded_paths then call_next request else checked
