-- ===== src/Middleware/Chain.antt =====
-- app/main.py: the handlers of HTTP errors around the routes, and the middleware around those.
pub mod Refusals
pub mod BadIp
pub mod Shadowed
pub mod Handlers
use api_gateway_with_abuse_d.Platform.{Platform}
use api_gateway_with_abuse_d.Config.{Settings}
use api_gateway_with_abuse_d.World.{World, Exec, Exn, http_error, Result, ok, err}
use api_gateway_with_abuse_d.World.Http.{Request, Response, error_response}
use api_gateway_with_abuse_d.Middleware.RequestId.{request_id_dispatch}
use api_gateway_with_abuse_d.Middleware.Auth.{auth_dispatch}
use api_gateway_with_abuse_d.Middleware.BloomFilter.{bloom_filter_dispatch}
use api_gateway_with_abuse_d.Middleware.RateLimit.{rate_limit_dispatch}
use api_gateway_with_abuse_d.Middleware.AbuseDetector.{abuse_detector_dispatch}
use api_gateway_with_abuse_d.Middleware.ShadowMode.{shadow_mode_dispatch}

abbrev pub answered : {p : Platform} → Result Response × World p → Result Response × World p
answered (err (http_error status detail headers), w) =
    (ok (error_response status detail headers), w)
answered (ok response, w) = (ok response, w)
answered (err e, w) = (err e, w)

-- An HTTPException of a route becomes its response; any other exception goes on.
unfoldable pub exception_handlers :
    {p : Platform} → (Request → Exec p Response) → Request → Exec p Response
exception_handlers route request w = answered (route request w)

-- The middleware that runs behind the Bloom filter.
abbrev pub behind_bloom :
    (p : Platform) → Settings → (Request → Exec p Response) → Request → Exec p Response
behind_bloom p settings route = rate_limit_dispatch p settings (
    abuse_detector_dispatch p settings (shadow_mode_dispatch p settings (exception_handlers route)))

-- The application: the last middleware that is added runs first.
unfoldable pub gateway :
    (p : Platform) → Settings → (Request → Exec p Response) → Request → Exec p Response
gateway p settings route =
    request_id_dispatch p
      (auth_dispatch p (bloom_filter_dispatch p (behind_bloom p settings route)))
