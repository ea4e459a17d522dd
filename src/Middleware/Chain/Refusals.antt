-- ===== src/Middleware/Chain/Refusals.antt =====
-- app/main.py: what the whole stack of middleware does to a request, whatever the route is.
use api_gateway_with_abuse_d.Prelude.{
  ℕ, ◌+◌, ◌-◌, String, ◌≡◌, refl, sym, ap, arith, false, some, ◌∷◌, str, Bool-cases, inl, inr,
}
use api_gateway_with_abuse_d.Platform.{Platform}
use api_gateway_with_abuse_d.Config.{Settings}
use api_gateway_with_abuse_d.Text.{is_one_of, has_prefix}
use api_gateway_with_abuse_d.World.{
  World, Exec, Result, ok, err, connection_error, request_total, request_duration,
}
use api_gateway_with_abuse_d.World.Http.{
  Request, Response, header, header-set_header, error_response, with_header, or_else,
}
use api_gateway_with_abuse_d.World.Exec.{continue, inc, now_ms, pure, ◌>>◌, ◌>>=◌}
use api_gateway_with_abuse_d.Middleware.BloomFilter.{bloom_filter_dispatch}
use api_gateway_with_abuse_d.World.Inversion.{err≢ok, ok_injective}
use api_gateway_with_abuse_d.Services.RateLimiter.{check_rate_limit}
use api_gateway_with_abuse_d.Middleware.RequestId.{request_id_dispatch}
use api_gateway_with_abuse_d.Middleware.Auth.{auth_dispatch, public_paths, bearer}
use api_gateway_with_abuse_d.Middleware.RateLimit.{rate_limit_dispatch, excluded_paths}
use api_gateway_with_abuse_d.Middleware.AbuseDetector.{abuse_detector_dispatch, gather_and_score}
use api_gateway_with_abuse_d.Middleware.Chain.{gateway, behind_bloom}

-- The end of the outermost middleware, whatever came before.
tagged :
    {p : Platform} (request : Request) (request_id : String) (start : ℕ)
    (r : Result Response × World p) (response : Response)
    → (continue r (λ inner. do
      stop ← now_ms p
      inc p (request_duration (stop - start))
      inc p (request_total (str inner.status) request.path)
      pure (with_header "X-Request-ID" request_id inner))).0
      ≡ ok response
    → header "X-Request-ID" response.headers ≡ some request_id
tagged request request_id start (err e, w) response h = absurd (err≢ok h)
tagged request request_id start (ok inner, w) response h =
    rw (sym (ok_injective h), header-set_header) refl

no_time : (t : ℕ) → t - t ≡ 0
no_time t = omega arith

-- The world after a refusal that took some time.
abbrev refused_after : {p : Platform} → Response → String → World p → ℕ → Result Response × World p
refused_after response path w ms = (
  ok response,
  record w {
    draws = w.draws + 1;
    metrics = request_total (str response.status) path ∷ request_duration ms ∷ w.metrics;
  },
)

module _ (p : Platform) (settings : Settings) (route : Request → Exec p Response)
    (request : Request) (w : World p) where
  -- A request to a protected path that does not come with a Bearer token is answered 401, and only
  -- the counters know: no filter is asked, Redis is neither read nor written, the route does not
  -- run. This holds as well while Redis is down.
  pub gateway-unauthenticated :
      is_one_of request.path public_paths ≡ false
      → has_prefix (or_else request.authorization "") "Bearer " ≡ false
      → gateway p settings route request w ≡ (
        ok (
            with_header "X-Request-ID"
              (p.uuid4 w.draws)
              (error_response 401 "Not authenticated" bearer)),
        record w {
          draws = w.draws + 1;
          metrics = request_total (str 401) request.path ∷ request_duration 0 ∷ w.metrics;
        },
      )
  unfolding gateway request_id_dispatch auth_dispatch
  gateway-unauthenticated protected bare =
      rw (protected, bare)
        (ap
          (refused_after
            (with_header "X-Request-ID" (p.uuid4 w.draws)
              (error_response 401 "Not authenticated" bearer))
            request.path w)
          (no_time w.now))

  -- Every response of the gateway, of a refusal too, carries the identifier of its request.
  pub gateway-request_id :
      (response : Response)
      → (gateway p settings route request w).0 ≡ ok response
      → header "X-Request-ID" response.headers ≡ some (p.uuid4 w.draws)
  unfolding gateway request_id_dispatch
  gateway-request_id response h =
      tagged request (p.uuid4 w.draws) w.now
        (auth_dispatch p (bloom_filter_dispatch p (behind_bloom p settings route))
          (record request { state = record request.state { request_id = some (p.uuid4 w.draws) } })
          (record w { draws = w.draws + 1 }))
        response h

  -- While Redis is down, no request gets past the rate limiter and the abuse detector: each raises,
  -- and the route does not run, whatever its path.
  pub behind_bloom-down :
      w.redis_up ≡ false → behind_bloom p settings route request w ≡ (err connection_error, w)
  unfolding rate_limit_dispatch check_rate_limit abuse_detector_dispatch gather_and_score
  behind_bloom-down down = elim (Bool-cases (is_one_of request.path excluded_paths)) [
    | inl free ↦ rw (free, down) refl
    | inr counted ↦ rw (counted, down) refl
  ]
