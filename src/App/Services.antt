-- ===== src/App/Services.antt =====
-- app/services and app/core under a contract: each method runs in good order from a good world.
use api_gateway_with_abuse_d.Prelude.{
  ℕ, ◌/◌, String, refl, Bool, Option, List, [], ◌∷◌, map, if◌then◌else◌, not, eqb,
}
use api_gateway_with_abuse_d.Redis.{get, zrange, exists}
use api_gateway_with_abuse_d.Redis.Keys.{rate_limit, blocked_ip, request_times}
use api_gateway_with_abuse_d.Platform.{Platform, Deviation}
use api_gateway_with_abuse_d.Config.{Fraction}
use api_gateway_with_abuse_d.World.Exec.{call, pure}
use api_gateway_with_abuse_d.Core.RedisClient.{is_shadow_mode_enabled, is_true_text}
use api_gateway_with_abuse_d.Services.RateLimiter.{
  check_rate_limit, sliding_window_script, request_id_of,
}
use api_gateway_with_abuse_d.Services.GraduatedResponse.{
  get_client_state, apply_soft_block, remove_soft_block, compute_abuse_score, score_signals,
  soft_block, allowed, is_soft_block, soft_block_ttl,
}
use api_gateway_with_abuse_d.Services.AbuseDetector.{
  record_auth_failure, record_request_timing, compute_timing_entropy, entropy_of,
}
use api_gateway_with_abuse_d.Services.ShadowLogger.{
  log_shadow_event, get_shadow_stats, stats_of, tally, no_stats, shadow_log_ttl,
}
use api_gateway_with_abuse_d.App.Outcome.{
  Contract, returned, Runs, continue-Settles, query-continue, read-Settles, call-Settles,
  execute-Settles, if-Settles,
}
use api_gateway_with_abuse_d.App.Commands.{
  count_failure, expire_failures, block, unblock, log_time, trim_times, expire_times, log_event,
}

module _ {p : Platform} (c : Contract p) where
  pub is_shadow_mode_enabled-Runs : (fallback : Bool) → Runs c (is_shadow_mode_enabled p fallback)
  unfolding is_shadow_mode_enabled
  is_shadow_mode_enabled-Runs fallback w good =
      read-Settles c (λ t db. get p.redis t "config:shadow_mode_enabled" db) (is_true_text fallback)
        w good

  pub check_rate_limit-Runs :
      (client_id : String) (limit window : ℕ)
      → c.Allows limit
      → Runs c (check_rate_limit p client_id limit window)
  unfolding check_rate_limit
  check_rate_limit-Runs client_id limit window allows w good =
      let request_id = request_id_of w.now client_id in
      let script =
        sliding_window_script p.redis (rate_limit client_id) w.now window limit request_id in
      continue-Settles c {r = call p script w} (λ result. pure (not (eqb result.0 0), result.1))
        (call-Settles c script w good (c.checked client_id request_id limit window w allows good))
        (λ result v good'. returned tt good')

  pub get_client_state-Runs : (ip : String) → Runs c (get_client_state p ip)
  unfolding get_client_state
  get_client_state-Runs ip w good =
      read-Settles c (λ t db. exists p.redis t (blocked_ip ip) db)
        (λ b. if b then soft_block else allowed) w good

  pub apply_soft_block-Runs : (ip : String) (ttl : ℕ) → Runs c (apply_soft_block p ip ttl)
  unfolding apply_soft_block
  apply_soft_block-Runs ip ttl w good = execute-Settles c (block ip ttl ∷ []) w (refl, tt) good

  pub remove_soft_block-Runs : (ip : String) → Runs c (remove_soft_block p ip)
  unfolding remove_soft_block
  remove_soft_block-Runs ip w good = execute-Settles c (unblock ip ∷ []) w (refl, tt) good

  pub compute_abuse_score-Runs :
      (ip : String) (ip_fails user_fails : ℕ) (entropy : Option Deviation)
      (ip_threshold user_threshold : ℕ) (threshold : Fraction)
      → Runs c (
          compute_abuse_score p ip ip_fails user_fails entropy ip_threshold user_threshold
            threshold)
  unfolding compute_abuse_score
  compute_abuse_score-Runs ip ip_fails user_fails entropy ip_threshold user_threshold threshold w
        good =
      continue-Settles c _ (get_client_state-Runs ip w good) (λ existing v good'.
        if-Settles c (is_soft_block existing) _ _ v (returned tt good') (
          if-Settles c
            (is_soft_block
              (score_signals p ip_fails user_fails entropy ip_threshold user_threshold threshold).0)
            _ _ v
            (continue-Settles c _ (apply_soft_block-Runs ip soft_block_ttl v good')
              (λ done u good''. returned tt good''))
            (returned tt good')))

  pub record_auth_failure-Runs :
      (ip username : String) (window : ℕ) → Runs c (record_auth_failure p ip username window)
  unfolding record_auth_failure
  record_auth_failure-Runs ip username window w good =
      execute-Settles c
        (count_failure ip
          ∷ expire_failures ip window
          ∷ count_failure username
          ∷ expire_failures username window
          ∷ [])
        w (refl, (refl, (refl, (refl, tt)))) good

  pub record_request_timing-Runs :
      (client_id : String) (max_samples : ℕ)
      → Runs c (record_request_timing p client_id max_samples)
  unfolding record_request_timing
  record_request_timing-Runs client_id max_samples w good =
      execute-Settles c
        (log_time client_id w.now ∷ trim_times client_id max_samples ∷ expire_times client_id ∷ [])
        w (refl, (refl, (refl, tt))) good

  pub compute_timing_entropy-Runs :
      (client_id : String) → Runs c (compute_timing_entropy p client_id)
  unfolding compute_timing_entropy
  compute_timing_entropy-Runs client_id w good =
      read-Settles c (λ t db. zrange p.redis t (request_times client_id) db)
        (λ xs. entropy_of (map (λ e. e.score) xs)) w good

  pub log_shadow_event-Runs :
      (request_id rule client_id path reason : String)
      → Runs c (log_shadow_event p request_id rule client_id path reason)
  unfolding log_shadow_event
  log_shadow_event-Runs request_id rule client_id path reason w good =
      execute-Settles c
        (log_event request_id
            (record {
              request_id = request_id;
              rule_triggered = rule;
              client_id = client_id;
              path = path;
              reason = reason;
              timestamp = w.now / 1000;
            })
            shadow_log_ttl
          ∷ [])
        w (refl, tt) good

  stats_of-Runs : (keys : List String) → Runs c (stats_of p keys)
  unfolding tally
  stats_of-Runs [] w good = returned tt good
  stats_of-Runs (key ∷ keys) w good =
      read-Settles c (λ t db. map (λ k. get p.redis t k db) (key ∷ keys))
        (λ values. tally p values no_stats) w good

  pub get_shadow_stats-Runs : Runs c (get_shadow_stats p)
  unfolding get_shadow_stats
  get_shadow_stats-Runs w good =
      let keys = λ (t : ℕ) (db : p.redis.Db). p.redis.scan t "shadow_log:" db in
      query-continue c keys (stats_of p) w good (stats_of-Runs (keys w.now w.db) w good)
