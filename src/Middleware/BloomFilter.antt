-- ===== src/Middleware/BloomFilter.antt =====
-- app/middleware/bloom_filter.py
use api_gateway_with_abuse_d.Prelude.{String, not, ◌&&◌, some, [], ◌==◌, if◌then◌else◌}
use api_gateway_with_abuse_d.Platform.{Platform}
use api_gateway_with_abuse_d.World.{Exec, bloom_filter_hit}
use api_gateway_with_abuse_d.World.Http.{Request, Response, or_else, error_response}
use api_gateway_with_abuse_d.World.Exec.{pure, gets, inc, ◌>>=◌, ◌>>◌}
use api_gateway_with_abuse_d.Services.BloomFilter.{app_state, might_contain_ip, might_contain_agent}

abbrev pub screened : String → String → Request → Request
screened client_ip user_agent request = record request {
  state = record request.state { client_ip = some client_ip; user_agent = some user_agent };
}

-- BloomFilterMiddleware.dispatch
unfoldable pub bloom_filter_dispatch :
    (p : Platform) → (Request → Exec p Response) → Request → Exec p Response
bloom_filter_dispatch p call_next request = do
  let client_ip = or_else request.host "unknown"
  let user_agent = or_else request.user_agent ""
  bad_ip ← gets (might_contain_ip p app_state client_ip)
  bad_agent ← gets (might_contain_agent p app_state user_agent)
  if bad_ip
      then (do
        inc p (bloom_filter_hit "ip")
        pure (error_response 403 "Access denied — known bad IP" []))
      else if not (user_agent == "") && bad_agent
      then (do
        inc p (bloom_filter_hit "agent")
        pure (error_response 403 "Access denied — abusive user agent" []))
      else call_next (screened client_ip user_agent request)
