-- ===== src/Tests/Life.antt =====
-- Examples for several processes that share one Redis.
use api_gateway_with_abuse_d.Prelude.{ℕ, ◌++◌, ◌≡◌, refl, true, false, List, [], ◌∷◌, arith}
use api_gateway_with_abuse_d.Platform.Reference.{reference}
use api_gateway_with_abuse_d.Text.{split_words, is_lowered}
use api_gateway_with_abuse_d.World.{ok}
use api_gateway_with_abuse_d.World.Http.{text}
use api_gateway_with_abuse_d.Core.RedisClient.{create_redis_client}
use api_gateway_with_abuse_d.Dependencies.{require_admin}
use api_gateway_with_abuse_d.Services.BloomFilter.{
  add_ip_to_redis, sync_from_redis, add_ips, add_agents,
}
use api_gateway_with_abuse_d.Routers.Admin
use api_gateway_with_abuse_d.Routers.Admin.{json_response}
use api_gateway_with_abuse_d.Middleware.Chain.BadIp.{IsRefused}
use api_gateway_with_abuse_d.Workers.BloomSync.{startup}
use api_gateway_with_abuse_d.App.{
  arrival, sync_due, elapse, redis_switch, login, register, proxy, health, handle, serve,
}
use api_gateway_with_abuse_d.App.Cluster.{Cluster, Move, happening, restart, view, move, run_moves}
use api_gateway_with_abuse_d.App.Typed.{IsWellTyped}
use api_gateway_with_abuse_d.App.Answers.{IsAnswered}
use api_gateway_with_abuse_d.Services.RateLimiter.{check_rate_limit}
use api_gateway_with_abuse_d.App.Limits.{IsWithinLimit}
use api_gateway_with_abuse_d.App.Cluster.Shared.{
  run_moves-IsWithinLimit, run_moves-IsWellTyped, serve-answers, run_moves-readmits,
}
use api_gateway_with_abuse_d.App.Cluster.Accounts.{HasGrown, run_moves-HasGrown}
use api_gateway_with_abuse_d.App.Cluster.Stale.{block_ip-unseen}
use api_gateway_with_abuse_d.App.Cluster.Blocked.{blocked_at, block_ip-lasts, block_ip-restart}
use api_gateway_with_abuse_d.Tests.{test_settings, quiet, request_of, admin_request}

-- Processes that have just started, with nothing in Redis.
abbrev pub idle : Cluster reference
idle = record { now = 100000; db = quiet.db; users = quiet.users; local = λ i. quiet }

-- A failed login at a process, an hour, a round of its worker, and Redis that was away from it.
abbrev busy_day : ℕ → List Move
busy_day i =
    happening i (arrival (login "alice" "guess") (request_of "/" ""))
    ∷ happening i (elapse 3600000)
    ∷ happening i (redis_switch false)
    ∷ happening i sync_due
    ∷ happening i (redis_switch true)
    ∷ []

-- The second process starts, and then both have a busy day.
abbrev busy_days : List Move
busy_days = restart 2 (λ t. true) ∷ (busy_day 1 ++ busy_day 2)

run_moves-IsWellTyped_example :
    IsWellTyped reference (run_moves reference test_settings busy_days idle).db
run_moves-IsWellTyped_example =
    run_moves-IsWellTyped reference test_settings busy_days idle (λ k. refl)

run_moves-IsWithinLimit_example :
    IsWithinLimit reference 100 (run_moves reference test_settings busy_days idle).db
run_moves-IsWithinLimit_example =
    run_moves-IsWithinLimit reference test_settings busy_days idle (λ client_id. refl)

serve-answers_example :
    IsAnswered
      (serve reference test_settings proxy
        (request_of "/" "Bearer user")
        (view reference 1 (run_moves reference test_settings busy_days idle))).0
unfolding run_moves startup create_redis_client sync_from_redis add_ips add_agents
serve-answers_example =
    serve-answers reference test_settings busy_days 1 proxy (request_of "/" "Bearer user") idle
      (λ k. refl) refl

run_moves-readmits_example :
    (check_rate_limit reference "10.0.0.1" 100 60 (
      handle reference test_settings
        (elapse 60000)
        (view reference 2 (run_moves reference test_settings busy_days idle)))).0
    ≡ ok (true, 99)
unfolding run_moves startup create_redis_client sync_from_redis add_ips add_agents
run_moves-readmits_example =
    run_moves-readmits reference test_settings busy_days 2 "10.0.0.1" 100 60 60000 idle
      (λ client_id. refl) (omega arith) (omega arith) refl

-- Somebody joins at the first process, and again at the second.
abbrev registration : List Move
registration =
    happening 1 (arrival (register "bob" "bob@example.org" "pw") (request_of "/" ""))
    ∷ happening 2 (arrival (register "bob" "bob@example.org" "other") (request_of "/" ""))
    ∷ []

-- The first process blocks the address.
abbrev after_block : Cluster reference
after_block = blocked_at reference 1 "10.0.0.1" admin_request idle

block_ip-lasts_example :
    IsRefused reference
      (serve reference test_settings health
        (request_of "/" "")
        (view reference 1 (run_moves reference test_settings busy_days after_block)))
      (view reference 1 (run_moves reference test_settings busy_days after_block))
unfolding Admin.block_ip require_admin add_ip_to_redis split_words is_lowered
block_ip-lasts_example =
    block_ip-lasts reference test_settings "10.0.0.1" admin_request (request_of "/" "")
      (json_response (("hard_blocked", text "10.0.0.1") ∷ [])) busy_days 1 health idle refl
      (refl, (tt, (tt, (tt, (tt, (tt, (tt, (tt, (tt, (tt, (tt, tt))))))))))) refl

abbrev quiet_hour : List Move
quiet_hour = happening 1 (elapse 3600000) ∷ []

-- The second one is started after that.
abbrev restarted : Cluster reference
restarted =
    move reference test_settings (restart 2 (λ t. true))
      (run_moves reference test_settings quiet_hour after_block)

block_ip-restart_example :
    IsRefused reference
      (serve reference test_settings health
        (request_of "/" "")
        (view reference 2 (run_moves reference test_settings (busy_day 2) restarted)))
      (view reference 2 (run_moves reference test_settings (busy_day 2) restarted))
unfolding Admin.block_ip require_admin add_ip_to_redis split_words is_lowered run_moves startup
    create_redis_client sync_from_redis add_ips add_agents
block_ip-restart_example =
    block_ip-restart reference test_settings "10.0.0.1" admin_request (request_of "/" "")
      (json_response (("hard_blocked", text "10.0.0.1") ∷ [])) [] quiet_hour (busy_day 2) 1 2
      (λ t. true) 1 health idle (λ k. refl) refl refl (tt, (tt, (tt, (tt, (tt, tt))))) refl

run_moves-HasGrown_example :
    HasGrown reference [] (run_moves reference test_settings registration idle).users
run_moves-HasGrown_example = run_moves-HasGrown reference test_settings registration idle

-- An hour of rounds of the worker.
abbrev rounds : List Move
rounds = happening 2 sync_due ∷ happening 2 (elapse 3600000) ∷ happening 2 sync_due ∷ []

block_ip-unseen_example :
    (view reference 2 (run_moves reference test_settings rounds after_block)).bloom
    ≡ (view reference 2 idle).bloom
block_ip-unseen_example =
    block_ip-unseen reference test_settings "10.0.0.1" admin_request rounds 1 2 idle refl
      ((λ same. tt), ((λ same. tt), ((λ same. tt), tt)))
