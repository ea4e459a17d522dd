-- ===== src/App/Stack.antt =====
-- app/middleware and the application of app/main.py under a contract: the whole stack keeps it.
use api_gateway_with_abuse_d.Prelude.{String, Option, none, some, inl, inr, ◌==◌, not, ◌&&◌}
use api_gateway_with_abuse_d.Platform.{Platform, Claims}
use api_gateway_with_abuse_d.Config.{Settings}
use api_gateway_with_abuse_d.Text.{is_one_of, has_prefix, split_by, is_blank}
use api_gateway_with_abuse_d.World.{
  World, Exec, Result, Exn, http_error, value_error, index_error, connection_error, password_error,
  database_error, err,
}
use api_gateway_with_abuse_d.World.Http.{Request, Response, or_else}
use api_gateway_with_abuse_d.Core.Security.{seconds_of}
use api_gateway_with_abuse_d.Services.GraduatedResponse.{
  ClientState, allowed, throttled, soft_block, hard_block, is_allowed,
}
use api_gateway_with_abuse_d.Services.BloomFilter.{app_state, might_contain_ip, might_contain_agent}
use api_gateway_with_abuse_d.Middleware.RequestId.{request_id_dispatch}
use api_gateway_with_abuse_d.Middleware.Auth.{auth_dispatch, public_paths, second, authenticated}
use api_gateway_with_abuse_d.Middleware.BloomFilter.{bloom_filter_dispatch, screened}
use api_gateway_with_abuse_d.Middleware.RateLimit.{
  rate_limit_dispatch, excluded_paths, limited_client,
}
use api_gateway_with_abuse_d.Middleware.AbuseDetector.{
  abuse_detector_dispatch, enforce, with_shadow,
}
use api_gateway_with_abuse_d.Middleware.ShadowMode.{shadow_mode_dispatch, log_if_flagged}
use api_gateway_with_abuse_d.Middleware.Chain.{gateway, exception_handlers, answered}
use api_gateway_with_abuse_d.App.{Endpoint, serve, route_of, path_of}
use api_gateway_with_abuse_d.App.Outcome.{
  Contract, returned, raised, Settles, Runs, continue-Settles, if-Settles, routed, routed-Refuses,
}
use api_gateway_with_abuse_d.App.Services.{
  is_shadow_mode_enabled-Runs, check_rate_limit-Runs, log_shadow_event-Runs,
}
use api_gateway_with_abuse_d.App.Signals.{gather_and_score-Runs}
use api_gateway_with_abuse_d.App.Handlers.{route_of-Runs}

module _ {p : Platform} (c : Contract p) where
  answered-err :
      (e : Exn) (w : World p) → (routed c).Raises e → c.Good w → Settles c (answered (err e, w))
  answered-err (http_error status detail headers) w h good = returned tt good
  answered-err _ w (inl absent) good = absurd absent
  answered-err value_error w (inr h) good = raised h good
  answered-err index_error w (inr h) good = raised h good
  answered-err password_error w (inr h) good = raised h good
  answered-err (database_error e) w (inr h) good = raised h good
  answered-err connection_error w (inr h) good = raised h good

  answered-Settles : (r : Result Response × World p) → Settles (routed c) r → Settles c (answered r)
  answered-Settles _ (returned done good) = returned tt good
  answered-Settles _ (raised {e} {w} h good) = answered-err e w h good

  exception_handlers-Runs :
      (route : Request → Exec p Response) (request : Request)
      → Runs (routed c) (route request)
      → Runs c (exception_handlers route request)
  unfolding exception_handlers
  exception_handlers-Runs route request runs w good = answered-Settles _ (runs w good)

  -- What a middleware calls runs in good order on every request.
  abbrev Next : (Request → Exec p Response) → Type 0
  Next call_next = (request : Request) → Runs c (call_next request)

  log_if_flagged-Runs :
      (request : Request) (rule : Option String) → Runs c (log_if_flagged p request rule)
  log_if_flagged-Runs request none w good = returned tt good
  log_if_flagged-Runs request (some rule) w good =
      if-Settles c (rule == "") _ _ w (returned tt good) (log_shadow_event-Runs c _ _ _ _ _ w good)

  shadow_mode_dispatch-Next :
      (settings : Settings) (call_next : Request → Exec p Response)
      → Next call_next
      → Next (shadow_mode_dispatch p settings call_next)
  unfolding shadow_mode_dispatch
  shadow_mode_dispatch-Next settings call_next next request w good =
      continue-Settles c _ (next request w good) (λ response v1 g1.
        continue-Settles c _ (is_shadow_mode_enabled-Runs c settings.shadow_mode_enabled v1 g1)
          (λ enabled v2 g2.
            continue-Settles c _
              (if-Settles c enabled _ _ v2
                (log_if_flagged-Runs request request.state.shadow_rule v2 g2) (returned tt g2))
              (λ done v3 g3. returned tt g3)))

  enforce-Runs :
      (call_next : Request → Exec p Response) (request : Request) (state : ClientState)
      (reason : String)
      → Next call_next
      → Runs c (enforce p call_next request state reason)
  unfolding enforce
  enforce-Runs call_next request allowed reason next w good = next request w good
  enforce-Runs call_next request hard_block reason next w good = next request w good
  enforce-Runs call_next request soft_block reason next w good = returned tt (c.counted _ w good)
  enforce-Runs call_next request throttled reason next w good =
      continue-Settles c _ (next request _ (c.later _ _ (c.counted _ w good)))
        (λ response v g. returned tt g)

  abuse_detector_dispatch-Next :
      (settings : Settings) (call_next : Request → Exec p Response)
      → Next call_next
      → Next (abuse_detector_dispatch p settings call_next)
  unfolding abuse_detector_dispatch
  abuse_detector_dispatch-Next settings call_next next request w good =
      continue-Settles c _ (gather_and_score-Runs c settings request w good) (λ verdict v1 g1.
        continue-Settles c _ (is_shadow_mode_enabled-Runs c settings.shadow_mode_enabled v1 g1)
          (λ enabled v2 g2.
            if-Settles c (enabled && not (is_allowed verdict.0)) _ _ v2
              (next (with_shadow verdict.0 verdict.1 request) _ (c.counted _ v2 g2))
              (enforce-Runs call_next request verdict.0 verdict.1 next v2 g2)))

  rate_limit_dispatch-Next :
      (settings : Settings) (call_next : Request → Exec p Response)
      → c.Allows settings.rate_limit_requests
      → Next call_next
      → Next (rate_limit_dispatch p settings call_next)
  unfolding rate_limit_dispatch
  rate_limit_dispatch-Next settings call_next allows next request w good =
      if-Settles c (is_one_of request.path excluded_paths) _ _ w (next request w good) (
        continue-Settles c _
          (check_rate_limit-Runs c (limited_client request) settings.rate_limit_requests
            settings.rate_limit_window_seconds allows w good)
          (λ answer v g.
            if-Settles c answer.0 _ _ v
              (continue-Settles c _ (next request v g) (λ response u g'. returned tt g'))
              (returned tt (c.counted _ v g))))

  bloom_filter_dispatch-Next :
      (call_next : Request → Exec p Response)
      → Next call_next
      → Next (bloom_filter_dispatch p call_next)
  unfolding bloom_filter_dispatch
  bloom_filter_dispatch-Next call_next next request w good =
      let ip = or_else request.host "unknown" in
      let agent = or_else request.user_agent "" in
      if-Settles c (might_contain_ip p app_state ip w) _ _ w (returned tt (c.counted _ w good)) (
        if-Settles c (not (agent == "") && might_contain_agent p app_state agent w) _ _ w
          (returned tt (c.counted _ w good)) (next (screened ip agent request) w good))

  authenticated-Runs :
      (call_next : Request → Exec p Response) (request : Request) (claims : Option Claims)
      → Next call_next
      → Runs c (authenticated call_next request claims)
  authenticated-Runs call_next request none next w good = returned tt good
  authenticated-Runs call_next request (some payload) next w good = next _ w good

  auth_dispatch-Next :
      (call_next : Request → Exec p Response) → Next call_next → Next (auth_dispatch p call_next)
  unfolding auth_dispatch
  auth_dispatch-Next call_next next request w good =
      let auth_header = or_else request.authorization "" in
      if-Settles c (is_one_of request.path public_paths) _ _ w (next _ w good) (
        if-Settles c (has_prefix auth_header "Bearer ") _ _ w
          (authenticated-Runs call_next request
            (p.jwt.decode (seconds_of w.now) (second (split_by is_blank auth_header))) next w good)
          (returned tt good))

  request_id_dispatch-Next :
      (call_next : Request → Exec p Response)
      → Next call_next
      → Next (request_id_dispatch p call_next)
  unfolding request_id_dispatch
  request_id_dispatch-Next call_next next request w good =
      continue-Settles c _ (next _ _ (c.drawn w good))
        (λ response v g. returned tt (c.counted _ _ (c.counted _ v g)))

  -- A request through the whole application.
  pub serve-Runs :
      (settings : Settings) (endpoint : Endpoint) (request : Request)
      → c.Allows settings.rate_limit_requests
      → Runs c (serve p settings endpoint request)
  unfolding serve gateway
  serve-Runs settings endpoint request allows =
      request_id_dispatch-Next _
        (auth_dispatch-Next _ (
          bloom_filter_dispatch-Next _ (
            rate_limit_dispatch-Next settings _ allows (
              abuse_detector_dispatch-Next settings _ (
                shadow_mode_dispatch-Next settings _ (λ req.
                  exception_handlers-Runs (route_of p settings endpoint) req
                    (route_of-Runs (routed c) (routed-Refuses c) settings endpoint req)))))))
        (record request { path = path_of endpoint })
