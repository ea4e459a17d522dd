-- ===== src/Middleware/AbuseDetector/Enforce.antt =====
-- app/middleware/abuse_detector.py: what becomes of a request of a blocked address.
use api_gateway_with_abuse_d.Prelude.{
  ℕ, String, ◌≡◌, refl, ◌∙◌, Bool, true, false, [], ◌∷◌, arith, str, append-ne_of_head, ◌==◌,
  Bool-cases, inl, inr, if◌then◌else◌,
}
use api_gateway_with_abuse_d.Redis.{get, exists}
use api_gateway_with_abuse_d.Redis.Keys.{failed_auth, blocked_ip, request_times}
use api_gateway_with_abuse_d.Platform.{Platform}
use api_gateway_with_abuse_d.Config.{Settings}
use api_gateway_with_abuse_d.Text.{before_colon}
use api_gateway_with_abuse_d.World.{World, Exec, ok, err, abuse_detection, connection_error}
use api_gateway_with_abuse_d.World.Http.{Request, Response, error_response}
use api_gateway_with_abuse_d.World.Exec.{continue, ◌>>=◌}
use api_gateway_with_abuse_d.World.Inversion.{continue-ok, err≢ok}
use api_gateway_with_abuse_d.Core.RedisClient.{is_shadow_mode_enabled}
use api_gateway_with_abuse_d.Services.AbuseDetector.{
  record_request_timing, compute_timing_entropy, int_or_zero,
}
use api_gateway_with_abuse_d.Services.AbuseDetector.Failures.{int_or_zero-read}
use api_gateway_with_abuse_d.Services.GraduatedResponse.{
  soft_block, compute_abuse_score, get_client_state,
}
use api_gateway_with_abuse_d.Middleware.AbuseDetector.{
  abuse_detector_dispatch, enforce, gather_and_score, detected_ip, detected_client, with_shadow,
}

-- Recording and reading the timing of a client leaves every other key as it was.
timing-frame :
    (p : Platform) (client_id k : String) (max_samples : ℕ) (w : World p)
    → w.redis_up ≡ true
    → (request_times client_id == k) ≡ false
    → ((record_request_timing p client_id max_samples w).0 ≡ ok tt)
      × ((record_request_timing p client_id max_samples w).1.redis_up ≡ true)
      × ((record_request_timing p client_id max_samples w).1.now ≡ w.now)
      × (p.redis.cell k (record_request_timing p client_id max_samples w).1.db
          ≡ p.redis.cell k w.db)
unfolding record_request_timing
timing-frame p client_id k max_samples w up other = rw up (
  refl,
  refl,
  refl,
  rw (p.redis.cell-expire, other, p.redis.cell-zremrangebyrank, other, p.redis.cell-zadd, other)
      refl,
)

module _ (p : Platform) (settings : Settings) (request : Request) where
  existing-soft_block :
      (m n : ℕ) (v : World p)
      → v.redis_up ≡ true
      → exists p.redis v.now (blocked_ip (detected_ip request)) v.db ≡ true
      → (continue (compute_timing_entropy p (detected_client request) v) (λ timing_entropy.
          compute_abuse_score p
            (detected_ip request)
            m
            n
            timing_entropy
            settings.auth_failure_ip_threshold
            settings.auth_failure_user_threshold
            settings.scraping_entropy_threshold)).0
        ≡ ok (soft_block, "existing_soft_block")
  unfolding compute_timing_entropy compute_abuse_score get_client_state
  existing-soft_block m n v up there = simp (up, there)

  scored_after_timing :
      (m n : ℕ) (w : World p)
      → w.redis_up ≡ true
      → exists p.redis w.now (blocked_ip (detected_ip request)) w.db ≡ true
      → (continue
          (record_request_timing p (detected_client request) settings.scraping_sample_size w)
          (λ _. do
            timing_entropy ← compute_timing_entropy p (detected_client request)
            compute_abuse_score p
                (detected_ip request)
                m
                n
                timing_entropy
                settings.auth_failure_ip_threshold
                settings.auth_failure_user_threshold
                settings.scraping_entropy_threshold)).0
        ≡ ok (soft_block, "existing_soft_block")
  scored_after_timing m n w up there =
      let (done, still_up, same_time, same_cell) =
        timing-frame p (detected_client request) (blocked_ip (detected_ip request))
          settings.scraping_sample_size w up (append-ne_of_head "r" "b" _ _ _ _ refl) in
      rw
        (continue-ok
          (record_request_timing p (detected_client request) settings.scraping_sample_size w) _
          done)
        (existing-soft_block m n _ still_up (rw (same_time, same_cell) there))

  exists-soft_block :
      (w : World p) (ip : String)
      → w.redis_up ≡ true
      → (get_client_state p ip w).0 ≡ ok soft_block
      → exists p.redis w.now (blocked_ip ip) w.db ≡ true
  unfolding get_client_state
  exists-soft_block w ip up h = elim (Bool-cases (exists p.redis w.now (blocked_ip ip) w.db)) [
    | inl there ↦ there
    | inr free ↦ ground arith
  ]

  unavailable :
      (w : World p) (ip : String)
      → w.redis_up ≡ false
      → err connection_error ≡ (get_client_state p ip w).0
  unfolding get_client_state
  unavailable w ip down = rw down refl

  -- An address that is blocked in the store scores SOFT_BLOCK, whatever its path, its failed logins
  -- and its timing are, as long as the counters can be read.
  pub gather_and_score-blocked :
      (w : World p) (m n : ℕ)
      → (get_client_state p (detected_ip request) w).0 ≡ ok soft_block
      → (int_or_zero (get p.redis w.now (failed_auth (detected_ip request)) w.db) w).0 ≡ ok m
      → (int_or_zero (get p.redis w.now (failed_auth (detected_client request)) w.db) w).0 ≡ ok n
      → (gather_and_score p settings request w).0 ≡ ok (soft_block, "existing_soft_block")
  unfolding gather_and_score
  gather_and_score-blocked w m n blocked ip_count user_count = elim (Bool-cases w.redis_up) [
    | inr down ↦ absurd (err≢ok (unavailable w (detected_ip request) down ∙ blocked))
    | inl up ↦
        simp
          (
            up,
            int_or_zero-read (get p.redis w.now (failed_auth (detected_ip request)) w.db) w w m
                ip_count,
            int_or_zero-read (get p.redis w.now (failed_auth (detected_client request)) w.db) w w n
                user_count,
          )
          (scored_after_timing m n w up (exists-soft_block w (detected_ip request) up blocked))
  ]

  flag-keeps : (fallback : Bool) (w : World p) → (is_shadow_mode_enabled p fallback w).1 ≡ w
  unfolding is_shadow_mode_enabled
  flag-keeps fallback w = ground arith

  -- What follows the score, with the hit counted.
  abbrev pub hit_counted : World p → World p
  hit_counted w = record (gather_and_score p settings request w).1 {
    metrics =
        abuse_detection "soft_block" "existing_soft_block"
        ∷ (gather_and_score p settings request w).1.metrics;
  }

  -- While an address is blocked in the store and the shadow mode is off, a request of it is answered
  -- 429 with `Retry-After: 300` on every path, /health and /metrics too, and the route does not run;
  -- with the shadow mode on, what is behind the detector runs on the same request, marked with the
  -- rule, and its result is the result. The two counters of failures are supposed to be readable.
  pub abuse_detector_dispatch-blocked :
      (call_next : Request → Exec p Response) (w : World p) (m n : ℕ) (shadow : Bool)
      → (get_client_state p (detected_ip request) w).0 ≡ ok soft_block
      → (int_or_zero (get p.redis w.now (failed_auth (detected_ip request)) w.db) w).0 ≡ ok m
      → (int_or_zero (get p.redis w.now (failed_auth (detected_client request)) w.db) w).0 ≡ ok n
      → (is_shadow_mode_enabled p settings.shadow_mode_enabled
          (gather_and_score p settings request w).1).0
        ≡ ok shadow
      → abuse_detector_dispatch p settings call_next request w ≡ (
          if shadow
          then call_next (with_shadow soft_block "existing_soft_block" request) (hit_counted w)
          else (
            ok (
                error_response 429 "Too many requests — temporary block applied"
                  (("Retry-After", str 300) ∷ [])),
            hit_counted w,
          ))
  unfolding abuse_detector_dispatch enforce before_colon
  abuse_detector_dispatch-blocked call_next w m n shadow blocked ip_count user_count flag =
      simp
        (
          continue-ok (gather_and_score p settings request w) _
              (gather_and_score-blocked w m n blocked ip_count user_count),
          continue-ok
              (is_shadow_mode_enabled p settings.shadow_mode_enabled
                (gather_and_score p settings request w).1)
              _ flag,
          flag-keeps settings.shadow_mode_enabled (gather_and_score p settings request w).1,
        )
        (elim (Bool-cases shadow) [ inl on ↦ rw on refl | inr off ↦ rw off refl ])
