-- ===== src/Middleware/RateLimit/Log.antt =====
-- app/middleware/rate_limit.py against the log of the admitted requests of a client.
use api_gateway_with_abuse_d.Prelude.{
  ℕ, ◌-◌, ◌<◌, ◌≡◌, refl, ◌∙◌, true, false, List, ◌∷◌, ltb, count, str, if◌then◌else◌, Bool-cases,
  inl, inr,
}
use api_gateway_with_abuse_d.Platform.{Platform}
use api_gateway_with_abuse_d.Config.{Settings}
use api_gateway_with_abuse_d.Text.{is_one_of}
use api_gateway_with_abuse_d.World.{World, Exec, ok, rate_limit_rejection}
use api_gateway_with_abuse_d.World.Http.{Request, Response, with_header}
use api_gateway_with_abuse_d.World.Exec.{continue, pure}
use api_gateway_with_abuse_d.World.Inversion.{continue-ok}
use api_gateway_with_abuse_d.Services.RateLimiter.{check_rate_limit}
use api_gateway_with_abuse_d.Services.RateLimiter.Step.{Agrees, in_window}
use api_gateway_with_abuse_d.Services.RateLimiter.Window.{log_check, check_rate_limit-log}
use api_gateway_with_abuse_d.Middleware.RateLimit.{
  rate_limit_dispatch, rate_limit_exceeded, limited_client, excluded_paths,
}

-- A request to a path that is not excluded, while Redis is up and its store agrees with the log of
-- the client: with fewer than the wanted number of admissions in the window, what is behind the
-- limiter runs, and its response carries how many are left; with as many or more, the answer is 429
-- with the window as `Retry-After`, what is behind does not run, and the rejection is counted.
pub rate_limit_dispatch-log :
    (p : Platform) (settings : Settings) (call_next : Request → Exec p Response) (request : Request)
    (last : ℕ) (admitted : List ℕ) (w : World p)
    → is_one_of request.path excluded_paths ≡ false
    → w.redis_up ≡ true
    → last < w.now
    → Agrees p.redis (limited_client request) settings.rate_limit_window_seconds last admitted w.db
    → (let n = count (in_window settings.rate_limit_window_seconds w.now) admitted in
        let v =
          (check_rate_limit p
            (limited_client request)
            settings.rate_limit_requests
            settings.rate_limit_window_seconds
            w).1 in
        rate_limit_dispatch p settings call_next request w ≡ (
          if ltb n settings.rate_limit_requests
          then continue (call_next request v) (λ response. pure (
              with_header "X-RateLimit-Remaining"
                (str (settings.rate_limit_requests - n - 1))
                response))
          else (
            ok (rate_limit_exceeded settings.rate_limit_window_seconds),
            record v { metrics = rate_limit_rejection (limited_client request) ∷ v.metrics },
          )))
unfolding rate_limit_dispatch log_check
rate_limit_dispatch-log p settings call_next request last admitted w limited up lt agrees =
    let limit = settings.rate_limit_requests in
    let window = settings.rate_limit_window_seconds in
    let c = limited_client request in
    let answer = (check_rate_limit-log p c limit window last admitted w up lt agrees).0 in
    let n = count (in_window window w.now) admitted in
    elim (Bool-cases (ltb n limit)) [
      | inl room ↦
          let yes : (check_rate_limit p c limit window w).0 ≡ ok (true, limit - n - 1) =
            answer ∙ rw room refl in
          simp (limited, room, continue-ok (check_rate_limit p c limit window w) _ yes)
      | inr full ↦
          let no : (check_rate_limit p c limit window w).0 ≡ ok (false, 0) =
            answer ∙ rw full refl in
          simp (limited, full, continue-ok (check_rate_limit p c limit window w) _ no)
    ]
