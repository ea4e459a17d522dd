-- ===== src/Tests/Blocks.antt =====
-- Examples for the scores, the soft blocks and the abuse detector.
use api_gateway_with_abuse_d.Prelude.{length, some}
use api_gateway_with_abuse_d.Prelude.{
  ◌≤◌, ◌≢◌, String, ◌≡◌, refl, true, false, none, [], ◌∷◌, arith, append, str,
}
use api_gateway_with_abuse_d.Platform.Reference.{reference}
use api_gateway_with_abuse_d.Config.{Fraction, Settings}
use api_gateway_with_abuse_d.World.{World, ok}
use api_gateway_with_abuse_d.World.Exec.{at_time}
use api_gateway_with_abuse_d.World.Http.{Request, error_response}
use api_gateway_with_abuse_d.Core.RedisClient.{is_shadow_mode_enabled}
use api_gateway_with_abuse_d.Services.GraduatedResponse.{
  soft_block, allowed, hard_block, get_client_state, apply_soft_block, compute_abuse_score,
  score_signals,
}
use api_gateway_with_abuse_d.Services.GraduatedResponse.Score.{score_signals-state}
use api_gateway_with_abuse_d.Services.GraduatedResponse.Block.{
  soft_block-lasts, compute_abuse_score-blocks,
}
use api_gateway_with_abuse_d.Services.AbuseDetector.{
  is_credential_stuffing, record_auth_failure, record_request_timing, compute_timing_entropy,
}
use api_gateway_with_abuse_d.Services.AbuseDetector.Regular.{
  score_timing, run_ticks, run_ticks-soft_block,
}
use api_gateway_with_abuse_d.Services.AbuseDetector.Failures.{Failure, record_failures}
use api_gateway_with_abuse_d.Services.AbuseDetector.Lockout.{burst_end, record_failures-refused}
use api_gateway_with_abuse_d.Middleware.AbuseDetector.{abuse_detector_dispatch, gather_and_score}
use api_gateway_with_abuse_d.Middleware.AbuseDetector.Enforce.{
  abuse_detector_dispatch-blocked, hit_counted,
}
use api_gateway_with_abuse_d.Redis.{get, zrange}
use api_gateway_with_abuse_d.Redis.Keys.{request_times, shadow_log}
use api_gateway_with_abuse_d.Services.ShadowLogger.{rule_of}
use api_gateway_with_abuse_d.Services.AbuseDetector.Samples.{record_request_timing-bounded}
use api_gateway_with_abuse_d.Middleware.AbuseDetector.{with_shadow}
use api_gateway_with_abuse_d.Middleware.ShadowMode.{shadow_mode_dispatch}
use api_gateway_with_abuse_d.Middleware.ShadowMode.Logged.{shadow_mode_dispatch-logs}
use api_gateway_with_abuse_d.Tests.{test_settings, quiet, fine, screened_request, upstream}

abbrev half : Fraction
half = record { num = 1; den = 2 }

soft_block-lasts_example :
    (get_client_state reference "10.0.0.1"
      (at_time 399999 (apply_soft_block reference "10.0.0.1" 300 quiet).1)).0
    ≡ ok soft_block
soft_block-lasts_example = soft_block-lasts reference "10.0.0.1" "10.0.0.1" 300 399999 quiet refl

compute_abuse_score-blocks_example :
    ((get_client_state reference "10.0.0.1"
        (compute_abuse_score reference "10.0.0.1" 10 0 none 10 20 half quiet).1).0
      ≡ ok soft_block)
    × ((get_client_state reference "10.0.0.1" (
          at_time 400000 (compute_abuse_score reference "10.0.0.1" 10 0 none 10 20 half quiet).1)).0
        ≡ ok allowed)
unfolding compute_abuse_score score_signals
compute_abuse_score-blocks_example =
    compute_abuse_score-blocks reference "10.0.0.1" 10 0 none 10 20 half
      (append "ip_failures:" (str 10)) 400000 quiet refl

score_signals-state_example : (score_signals reference 3 0 none 10 20 half).0 ≢ hard_block
score_signals-state_example = (score_signals-state reference 3 0 none 10 20 half).2

run_ticks-soft_block_example :
    (reason : String) × ((score_timing reference "alice" "10.0.0.1" 0 0 10 20 half
        (run_ticks reference "alice" 20 250 3 quiet)).0
      ≡ ok (soft_block, reason))
run_ticks-soft_block_example =
    run_ticks-soft_block reference "alice" "10.0.0.1" 20 250 3 0 0 10 20 half quiet refl refl
      (omega arith) (omega arith) (omega arith) (omega arith) (omega arith)

abbrev failure : String → Failure
failure name = record { wait = 1000; ip = "10.0.0.1"; username = name }

-- Two names are tried from one address, and then a third.
record_failures-refused_example :
    (is_credential_stuffing reference "10.0.0.1" "carol" 2 20 (
      burst_end reference 300 "10.0.0.1"
        (failure "alice")
        (failure "bob" ∷ [])
        5
        0
        2
        20
        quiet
        refl
        refl
        refl
        ((omega arith, refl), tt)
        (omega arith))).0
    ≡ ok (true, append "ip_threshold_exceeded:" (str 2))
unfolding record_failures record_auth_failure
record_failures-refused_example =
    record_failures-refused reference 300 "10.0.0.1" (failure "alice") (failure "bob" ∷ []) 5 0 2 20
      quiet refl refl refl ((omega arith, refl), tt) (omega arith) "carol" (omega arith) refl

abbrev enforcing : Settings
enforcing = record test_settings { shadow_mode_enabled = false }

abbrev blocked_world : World reference
unfolding apply_soft_block
blocked_world = (apply_soft_block reference "10.0.0.1" 300 quiet).1

abuse_detector_dispatch-blocked_example :
    abuse_detector_dispatch reference enforcing upstream screened_request blocked_world ≡ (
      ok (
          error_response 429 "Too many requests — temporary block applied"
            (("Retry-After", str 300) ∷ [])),
      hit_counted reference enforcing screened_request blocked_world,
    )
unfolding blocked_world gather_and_score get_client_state is_shadow_mode_enabled
    record_request_timing compute_timing_entropy compute_abuse_score
abuse_detector_dispatch-blocked_example =
    abuse_detector_dispatch-blocked reference enforcing screened_request upstream blocked_world 0 0
      false refl refl refl refl

record_request_timing-bounded_example :
    length (
      zrange reference.redis quiet.now
        (request_times "alice")
        (record_request_timing reference "alice" 20 quiet).1.db)
    ≤ 20
record_request_timing-bounded_example =
    record_request_timing-bounded reference "alice" 20 quiet refl

abbrev flagged_request : Request
flagged_request = with_shadow soft_block "existing_soft_block" screened_request

shadow_mode_dispatch-logs_example :
    ((shadow_mode_dispatch reference test_settings upstream flagged_request quiet).0 ≡ ok fine)
    × (rule_of reference (
          get reference.redis 100001
            (shadow_log "unknown")
            (shadow_mode_dispatch reference test_settings upstream flagged_request quiet).1.db)
        ≡ some "abuse_detector:soft_block")
unfolding is_shadow_mode_enabled
shadow_mode_dispatch-logs_example =
    shadow_mode_dispatch-logs reference test_settings flagged_request "abuse_detector:soft_block"
      refl upstream fine 100001 quiet refl refl refl
