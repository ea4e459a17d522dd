-- ===== src/Tests/Limits.antt =====
-- Examples for the rate limiter.
use api_gateway_with_abuse_d.World.{World}
use api_gateway_with_abuse_d.Prelude.{ℕ, String, ◌≡◌, refl, true, List, [], ◌∷◌, arith, All}
use api_gateway_with_abuse_d.Platform.Reference.{reference}
use api_gateway_with_abuse_d.World.{ok}
use api_gateway_with_abuse_d.Services.RateLimiter.{check_rate_limit}
use api_gateway_with_abuse_d.Services.RateLimiter.Step.{Agrees}
use api_gateway_with_abuse_d.Services.RateLimiter.Window.{
  run_checks, admitted_of, IsWithin, run_checks-never-exceeds, check_rate_limit-log, log_check,
  was_admitted, Agrees-init,
}
use api_gateway_with_abuse_d.Services.RateLimiter.Swap.{check_rate_limit-swap}
use api_gateway_with_abuse_d.Services.RateLimiter.Burst.{burst, burst-admitted}
use api_gateway_with_abuse_d.Config.{Settings}
use api_gateway_with_abuse_d.Text.{is_one_of}
use api_gateway_with_abuse_d.World.{rate_limit_rejection}
use api_gateway_with_abuse_d.World.Exec.{at_time}
use api_gateway_with_abuse_d.Middleware.RateLimit.{rate_limit_dispatch, rate_limit_exceeded}
use api_gateway_with_abuse_d.Middleware.RateLimit.Log.{rate_limit_dispatch-log}
use api_gateway_with_abuse_d.Tests.{test_settings, quiet, request_of, upstream}

abbrev calls : List (String × ℕ)
calls = ("alice", 100001) ∷ ("bob", 100001) ∷ ("alice", 100002) ∷ []

run_checks-never-exceeds_example :
    IsWithin 60 1 (admitted_of "alice" (run_checks reference 1 60 calls quiet) [])
run_checks-never-exceeds_example =
    run_checks-never-exceeds reference "alice" 1 60 100000 calls quiet refl refl
      (omega arith, (tt, (omega arith, tt)))

check_rate_limit-log_example :
    ((check_rate_limit reference "alice" 5 60 quiet).0 ≡ ok (log_check 60 5 100000 []).0)
    × Agrees reference.redis "alice" 60 100000
        (log_check 60 5 100000 []).1
        (check_rate_limit reference "alice" 5 60 quiet).1.db
check_rate_limit-log_example =
    check_rate_limit-log reference "alice" 5 60 99999 [] quiet refl (omega arith)
      (Agrees-init reference.redis "alice" 60 99999 quiet.db refl)

burst-admitted_example :
    All (λ answer. was_admitted answer ≡ true) (burst reference "alice" 2 60 3 quiet)
burst-admitted_example =
    burst-admitted reference "alice" 2 60 3 quiet (omega arith) (omega arith) refl refl

-- The first of two admissions leaves one.
test-first : (check_rate_limit reference "alice" 2 60 quiet).0 ≡ ok (true, 1)
unfolding check_rate_limit
test-first = refl

abbrev admitted_once : World reference
unfolding check_rate_limit
admitted_once = (check_rate_limit reference "10.0.0.1" 1 60 quiet).1

-- A limit of one, and one admission ten milliseconds ago: the next request is refused.
abbrev tight : Settings
tight = record test_settings { rate_limit_requests = 1 }

rate_limit_dispatch-log_example :
    rate_limit_dispatch reference tight upstream
      (request_of "/api" "")
      (at_time 100010 admitted_once)
    ≡ (
      ok (rate_limit_exceeded 60),
      record (check_rate_limit reference "10.0.0.1" 1 60 (at_time 100010 admitted_once)).1 {
        metrics = rate_limit_rejection "10.0.0.1" ∷ [];
      },
    )
unfolding admitted_once is_one_of check_rate_limit log_check
rate_limit_dispatch-log_example =
    rate_limit_dispatch-log reference tight upstream (request_of "/api" "") 100000 (100000 ∷ [])
      (at_time 100010 admitted_once) refl refl (omega arith)
      (check_rate_limit-log reference "10.0.0.1" 1 60 99999 [] quiet refl (omega arith)
        (Agrees-init reference.redis "10.0.0.1" 60 99999 quiet.db refl)).1

check_rate_limit-swap_example :
    let first_a = check_rate_limit reference "alice" 1 60 quiet in
    let first_b = check_rate_limit reference "bob" 2 60 quiet in
    let then_a = check_rate_limit reference "alice" 1 60 first_b.1 in
    let then_b = check_rate_limit reference "bob" 2 60 first_a.1 in
    (then_a.0 ≡ first_a.0)
    × (then_b.0 ≡ first_b.0)
    × ((j : String) → reference.redis.cell j then_b.1.db ≡ reference.redis.cell j then_a.1.db)
check_rate_limit-swap_example =
    check_rate_limit-swap reference "alice" "bob" 1 2 60 60 quiet refl refl
