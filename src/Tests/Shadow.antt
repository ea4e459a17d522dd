-- ===== src/Tests/Shadow.antt =====
-- Examples for the shadow mode.
use api_gateway_with_abuse_d.Prelude.{◌≡◌, refl, some}
use api_gateway_with_abuse_d.Redis.{get}
use api_gateway_with_abuse_d.Redis.Keys.{shadow_log}
use api_gateway_with_abuse_d.Platform.Reference.{reference}
use api_gateway_with_abuse_d.World.{World, ok}
use api_gateway_with_abuse_d.Core.RedisClient.{is_shadow_mode_enabled}
use api_gateway_with_abuse_d.Services.AbuseDetector.{record_request_timing, compute_timing_entropy}
use api_gateway_with_abuse_d.Services.GraduatedResponse.{
  apply_soft_block, get_client_state, compute_abuse_score,
}
use api_gateway_with_abuse_d.Services.ShadowLogger.{rule_of}
use api_gateway_with_abuse_d.Middleware.AbuseDetector.{abuse_detector_dispatch, gather_and_score}
use api_gateway_with_abuse_d.Middleware.ShadowMode.{shadow_mode_dispatch}
use api_gateway_with_abuse_d.Middleware.Chain.Shadowed.{soft_block-shadowed}
use api_gateway_with_abuse_d.Tests.{test_settings, quiet, fine, screened_request, upstream}

abbrev soft_blocked : World reference
unfolding apply_soft_block
soft_blocked = (apply_soft_block reference "10.0.0.1" 300 quiet).1

soft_block-shadowed_example :
    ((abuse_detector_dispatch reference test_settings
        (shadow_mode_dispatch reference test_settings upstream)
        screened_request
        soft_blocked).0
      ≡ ok fine)
    × (rule_of reference (
          get reference.redis 100001
            (shadow_log "unknown")
            (abuse_detector_dispatch reference test_settings
              (shadow_mode_dispatch reference test_settings upstream)
              screened_request
              soft_blocked).1.db)
        ≡ some "abuse_detector:soft_block")
unfolding soft_blocked get_client_state gather_and_score is_shadow_mode_enabled
    record_request_timing compute_timing_entropy compute_abuse_score
soft_block-shadowed_example =
    soft_block-shadowed reference test_settings upstream screened_request fine 0 0 100001
      soft_blocked refl refl refl refl refl refl
