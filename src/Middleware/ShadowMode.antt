-- ===== src/Middleware/ShadowMode.antt =====
-- app/middleware/shadow_mode.py
pub mod Logged
use api_gateway_with_abuse_d.Prelude.{String, Option, none, some, ◌==◌, if◌then◌else◌}
use api_gateway_with_abuse_d.Platform.{Platform}
use api_gateway_with_abuse_d.Config.{Settings}
use api_gateway_with_abuse_d.World.{Exec}
use api_gateway_with_abuse_d.World.Http.{Request, Response, or_else}
use api_gateway_with_abuse_d.World.Exec.{pure, ◌>>=◌, ◌>>◌}
use api_gateway_with_abuse_d.Core.RedisClient.{is_shadow_mode_enabled}
use api_gateway_with_abuse_d.Services.ShadowLogger.{log_shadow_event}

abbrev pub log_rule : (p : Platform) → Request → String → Exec p (Unit {0})
log_rule p request shadow_rule =
    log_shadow_event p (or_else request.state.request_id "unknown") shadow_rule
      (or_else request.state.client_id "anonymous") request.path
      (or_else request.state.shadow_reason "")

-- A missing or empty rule is not logged.
abbrev pub log_if_flagged : (p : Platform) → Request → Option String → Exec p (Unit {0})
log_if_flagged p request none = pure tt
log_if_flagged p request (some rule) = if rule == "" then pure tt else log_rule p request rule

-- ShadowModeMiddleware.dispatch
unfoldable pub shadow_mode_dispatch :
    (p : Platform) → Settings → (Request → Exec p Response) → Request → Exec p Response
unfolding is_shadow_mode_enabled log_shadow_event
shadow_mode_dispatch p settings call_next request = do
  response ← call_next request
  shadow_enabled ← is_shadow_mode_enabled p settings.shadow_mode_enabled
  if shadow_enabled then log_if_flagged p request request.state.shadow_rule else pure tt
  pure response
