-- ===== src/Middleware/Chain/Shadowed.antt =====
-- app/main.py: the abuse detector and, behind it, the log of the shadow mode.
use api_gateway_with_abuse_d.Prelude.{ℕ, ◌+◌, ◌*◌, ◌≡◌, refl, true, none, some, ltb, if◌then◌else◌}
use api_gateway_with_abuse_d.Redis.{get}
use api_gateway_with_abuse_d.Redis.Keys.{failed_auth, shadow_log}
use api_gateway_with_abuse_d.Platform.{Platform}
use api_gateway_with_abuse_d.Config.{Settings}
use api_gateway_with_abuse_d.World.{World, Exec, ok}
use api_gateway_with_abuse_d.World.Http.{Request, Response, or_else}
use api_gateway_with_abuse_d.Core.RedisClient.{is_shadow_mode_enabled}
use api_gateway_with_abuse_d.Services.AbuseDetector.{int_or_zero}
use api_gateway_with_abuse_d.Services.GraduatedResponse.{soft_block, get_client_state}
use api_gateway_with_abuse_d.Services.ShadowLogger.{rule_of}
use api_gateway_with_abuse_d.Middleware.AbuseDetector.{
  abuse_detector_dispatch, gather_and_score, detected_ip, detected_client, with_shadow,
}
use api_gateway_with_abuse_d.Middleware.AbuseDetector.Enforce.{
  abuse_detector_dispatch-blocked, hit_counted,
}
use api_gateway_with_abuse_d.Middleware.ShadowMode.{shadow_mode_dispatch}
use api_gateway_with_abuse_d.Middleware.ShadowMode.Logged.{shadow_mode_dispatch-logs}

abbrev pub flagged : Request → Request
flagged request = with_shadow soft_block "existing_soft_block" request

-- With the shadow mode on, before the route and after it, a request of a blocked address reaches
-- the route and gets the route's own response; and for a day the log has, under the identifier of
-- the request, that the abuse detector would have blocked it. The two counters of failures are
-- supposed to be readable.
pub soft_block-shadowed :
    (p : Platform) (settings : Settings) (route : Request → Exec p Response) (request : Request)
    (response : Response) (m n t : ℕ) (w : World p)
    → (get_client_state p (detected_ip request) w).0 ≡ ok soft_block
    → (int_or_zero (get p.redis w.now (failed_auth (detected_ip request)) w.db) w).0 ≡ ok m
    → (int_or_zero (get p.redis w.now (failed_auth (detected_client request)) w.db) w).0 ≡ ok n
    → (is_shadow_mode_enabled p settings.shadow_mode_enabled
        (gather_and_score p settings request w).1).0
      ≡ ok true
    → (route (flagged request) (hit_counted p settings request w)).0 ≡ ok response
    → (is_shadow_mode_enabled p settings.shadow_mode_enabled
        (route (flagged request) (hit_counted p settings request w)).1).0
      ≡ ok true
    → ((abuse_detector_dispatch p settings (shadow_mode_dispatch p settings route) request w).0
        ≡ ok response)
      × (rule_of p (
            get p.redis t
              (shadow_log (or_else request.state.request_id "unknown"))
              (abuse_detector_dispatch p settings
                (shadow_mode_dispatch p settings route)
                request
                w).1.db)
          ≡ (if ltb t
                ((route (flagged request) (hit_counted p settings request w)).1.now + 86400 * 1000)
              then some "abuse_detector:soft_block"
              else none))
soft_block-shadowed p settings route request response m n t w blocked ip_count user_count on
      returned still_on =
    rw
      (abuse_detector_dispatch-blocked p settings request (shadow_mode_dispatch p settings route) w
        m n true blocked ip_count user_count on)
      (shadow_mode_dispatch-logs p settings (flagged request) "abuse_detector:soft_block" refl route
        response t (hit_counted p settings request w) refl returned still_on)
