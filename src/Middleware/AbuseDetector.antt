-- ===== src/Middleware/AbuseDetector.antt =====
-- app/middleware/abuse_detector.py
pub mod Enforce
use api_gateway_with_abuse_d.Prelude.{
  ℕ, String, append, Bool, not, ◌&&◌, some, [], ◌∷◌, if◌then◌else◌, str,
}
use api_gateway_with_abuse_d.Redis.Keys.{failed_auth}
use api_gateway_with_abuse_d.Platform.{Platform}
use api_gateway_with_abuse_d.Config.{Settings}
use api_gateway_with_abuse_d.Text.{before_colon}
use api_gateway_with_abuse_d.World.{Exec, abuse_detection}
use api_gateway_with_abuse_d.World.Http.{Request, Response, or_else, error_response, with_header}
use api_gateway_with_abuse_d.World.Exec.{pure, query, inc, ◌>>=◌, ◌>>◌}
use api_gateway_with_abuse_d.Core.RedisClient.{is_shadow_mode_enabled}
use api_gateway_with_abuse_d.Services.AbuseDetector.{
  mget, int_or_zero, record_request_timing, compute_timing_entropy,
}
use api_gateway_with_abuse_d.Services.GraduatedResponse.{
  ClientState, allowed, throttled, soft_block, hard_block, value_of, is_allowed, soft_block_ttl,
  throttle_delay_seconds, compute_abuse_score, apply_throttle,
}

abbrev pub with_shadow : ClientState → String → Request → Request
with_shadow state reason request = record request {
  state = record request.state {
    shadow_rule = some (append "abuse_detector:" (value_of state));
    shadow_reason = some reason;
  };
}

abbrev pub detected_client : Request → String
detected_client request = or_else request.state.client_id "anonymous"

abbrev pub detected_ip : Request → String
detected_ip request = or_else request.state.client_ip "unknown"

-- The signals, and the state that they score to.
unfoldable pub gather_and_score :
    (p : Platform) → Settings → Request → Exec p (ClientState × String)
gather_and_score p settings request = do
  raw ← query p (mget p (failed_auth (detected_ip request)) (failed_auth (detected_client request)))
  ip_fail_count ← int_or_zero raw.0
  user_fail_count ← int_or_zero raw.1
  record_request_timing p (detected_client request) settings.scraping_sample_size
  timing_entropy ← compute_timing_entropy p (detected_client request)
  compute_abuse_score p (detected_ip request) ip_fail_count user_fail_count timing_entropy
      settings.auth_failure_ip_threshold settings.auth_failure_user_threshold
      settings.scraping_entropy_threshold

-- Graduated enforcement of a state.
unfoldable pub enforce :
    (p : Platform) → (Request → Exec p Response) → Request → ClientState → String → Exec p Response
unfolding apply_throttle
enforce p call_next request soft_block reason = do
  inc p (abuse_detection "soft_block" (before_colon reason))
  pure (
      error_response 429 "Too many requests — temporary block applied"
        (("Retry-After", str soft_block_ttl) ∷ []))
enforce p call_next request throttled reason = do
  inc p (abuse_detection "throttled" (before_colon reason))
  apply_throttle p
  response ← call_next request
  pure (with_header "Retry-After" (str throttle_delay_seconds) response)
enforce p call_next request allowed reason = call_next request
enforce p call_next request hard_block reason = call_next request

abbrev pub observe :
    (p : Platform) → (Request → Exec p Response) → Request → ClientState → String → Exec p Response
observe p call_next request state reason = do
  inc p (abuse_detection (value_of state) (before_colon reason))
  call_next (with_shadow state reason request)

-- AbuseDetectorMiddleware.dispatch
unfoldable pub abuse_detector_dispatch :
    (p : Platform) → Settings → (Request → Exec p Response) → Request → Exec p Response
abuse_detector_dispatch p settings call_next request = do
  verdict ← gather_and_score p settings request
  shadow_enabled ← is_shadow_mode_enabled p settings.shadow_mode_enabled
  if shadow_enabled && not (is_allowed verdict.0)
      then observe p call_next request verdict.0 verdict.1
      else enforce p call_next request verdict.0 verdict.1
