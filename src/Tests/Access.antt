-- ===== src/Tests/Access.antt =====
-- Examples for the roles, the routes of the administrator, and the stack of middleware.
use api_gateway_with_abuse_d.Prelude.{◌⊎◌, String}
use api_gateway_with_abuse_d.Middleware.Auth.{auth_dispatch, with_client_id}
use api_gateway_with_abuse_d.Middleware.Auth.Admits.{auth_dispatch-admits, IsClient}
use api_gateway_with_abuse_d.World.{World, Exec}
use api_gateway_with_abuse_d.World.Http.{Request}
use api_gateway_with_abuse_d.Prelude.{◌≡◌, refl, false, [], ◌∷◌, str}
use api_gateway_with_abuse_d.Platform.Reference.{reference}
use api_gateway_with_abuse_d.World.{ok, err, connection_error, request_total, request_duration}
use api_gateway_with_abuse_d.World.Http.{Response, text, with_header, error_response}
use api_gateway_with_abuse_d.Dependencies.{require_admin}
use api_gateway_with_abuse_d.Services.BloomFilter.{add_ip_to_redis}
use api_gateway_with_abuse_d.Text.{split_words, is_lowered, is_one_of, has_prefix}
use api_gateway_with_abuse_d.Middleware.Auth.{bearer}
use api_gateway_with_abuse_d.Middleware.Chain.{gateway, behind_bloom}
use api_gateway_with_abuse_d.Middleware.Chain.Refusals.{gateway-unauthenticated, behind_bloom-down}
use api_gateway_with_abuse_d.Middleware.Chain.BadIp.{gateway-bad_ip, IsRefused}
use api_gateway_with_abuse_d.World.Exec.{pure}
use api_gateway_with_abuse_d.Redis.{contains}
use api_gateway_with_abuse_d.Routers.Admin.{json_response, block_ip}
use api_gateway_with_abuse_d.Routers.Admin.Access.{
  post_block_ip, admin_route, IsAdmin, admin_route-guarded,
}
use api_gateway_with_abuse_d.Tests.{test_settings, quiet, request_of, admin_request, upstream}

abbrev blocked_response : Response
blocked_response = json_response (("hard_blocked", text "10.0.0.1") ∷ [])

admin_route-guarded_example : IsAdmin reference admin_request quiet
unfolding admin_route block_ip require_admin add_ip_to_redis split_words is_lowered
admin_route-guarded_example =
    admin_route-guarded reference (post_block_ip "10.0.0.1") admin_request blocked_response quiet
      refl

gateway-unauthenticated_example :
    gateway reference test_settings upstream (request_of "/api" "") quiet ≡ (
      ok (with_header "X-Request-ID" (str 0) (error_response 401 "Not authenticated" bearer)),
      record quiet {
        draws = 1;
        metrics = request_total (str 401) "/api" ∷ request_duration 0 ∷ [];
      },
    )
unfolding is_one_of has_prefix
gateway-unauthenticated_example =
    gateway-unauthenticated reference test_settings upstream (request_of "/api" "") quiet refl refl

behind_bloom-down_example :
    behind_bloom reference test_settings upstream
      (request_of "/health" "")
      (record quiet { redis_up = false })
    ≡ (err connection_error, record quiet { redis_up = false })
behind_bloom-down_example =
    behind_bloom-down reference test_settings upstream (request_of "/health" "")
      (record quiet { redis_up = false }) refl

-- The address of the requests stands in the filter of the application.
abbrev known_bad : World reference
known_bad = record quiet { bloom = record quiet.bloom { ip_filter = "10.0.0.1" ∷ [] } }

abbrev other_route : Request → Exec reference Response
other_route request = pure blocked_response

gateway-bad_ip_example :
    (gateway reference test_settings upstream (request_of "/api" "Bearer user") known_bad
      ≡ gateway reference test_settings other_route (request_of "/api" "Bearer user") known_bad)
    × IsRefused reference
        (gateway reference test_settings upstream (request_of "/api" "Bearer user") known_bad)
        known_bad
unfolding contains
gateway-bad_ip_example =
    gateway-bad_ip reference test_settings test_settings upstream other_route
      (request_of "/api" "Bearer user") "10.0.0.1" known_bad refl refl

auth_dispatch-admits_example :
    ((response : Response) × (auth_dispatch reference upstream
          (request_of "/api" "Bearer user")
          quiet
        ≡ (ok response, quiet))
      × (response.status ≡ 401))
    ⊎ ((c : String) × (auth_dispatch reference upstream (request_of "/api" "Bearer user") quiet
          ≡ upstream (with_client_id c (request_of "/api" "Bearer user")) quiet)
        × IsClient reference (request_of "/api" "Bearer user") quiet c)
auth_dispatch-admits_example =
    auth_dispatch-admits reference (request_of "/api" "Bearer user") quiet upstream
