-- ===== src/Routers/Main.antt =====
-- The routes of app/main.py, without the text of the Prometheus exposition.
use api_gateway_with_abuse_d.Prelude.{String, List, not, [], ◌∷◌, ◌==◌, if◌then◌else◌}
use api_gateway_with_abuse_d.Prelude.Int.{ℤ, pos}
use api_gateway_with_abuse_d.Platform.{Platform}
use api_gateway_with_abuse_d.Config.{Settings}
use api_gateway_with_abuse_d.World.{Exec, Pool}
use api_gateway_with_abuse_d.World.Http.{Request, Response, text, number, flag, integers}
use api_gateway_with_abuse_d.World.Exec.{pure, gets, modify, ◌>>=◌, ◌>>◌}
use api_gateway_with_abuse_d.Routers.Admin.{json_response}

-- record_pool_stats of app/core/metrics.py
unfoldable pub record_pool_stats : (p : Platform) → Exec p (Unit {0})
record_pool_stats p = modify p (λ w. record w {
  gauges = record { checkedout = w.pool.checked_out; overflow = w.pool.overflow };
})

abbrev pub db_pool : Pool → List (String × ℤ)
db_pool pool =
    ("checked_out", pos pool.checked_out)
    ∷ ("checked_in", pos pool.checked_in)
    ∷ ("overflow", pool.overflow)
    ∷ ("size", pos pool.size)
    ∷ []

-- health: a ping that raises is caught
unfoldable pub health : (p : Platform) → Request → Exec p Response
unfolding record_pool_stats
health p request = do
  redis_up ← gets (λ w. w.redis_up)
  record_pool_stats p
  w ← gets (λ w. w)
  pure (
      json_response (
        ("status", text "ok")
        ∷ ("redis", text (if redis_up then "ok" else "error"))
        ∷ ("bloom_filter_ips_loaded", number w.bloom.loaded_ip_count)
        ∷ ("bloom_filter_agents_loaded", number w.bloom.loaded_agent_count)
        ∷ ("db_pool", integers (db_pool w.pool))
        ∷ []))

unfoldable pub debug_config : (p : Platform) → Settings → Request → Exec p Response
debug_config p settings request =
    if not (settings.app_env == "development")
    then pure (json_response (("error", text "not available in production") ∷ []))
    else pure (
        json_response (
          ("app_env", text settings.app_env)
          ∷ ("rate_limit_requests", number settings.rate_limit_requests)
          ∷ ("shadow_mode_enabled", flag settings.shadow_mode_enabled)
          ∷ []))
