-- ===== src/Tests/Roles.antt =====
-- An example for an account that was registered through the gateway.
use api_gateway_with_abuse_d.Prelude.{
  Option-cases, Bool-cases, inl, inr, some, ◌==◌, ◌≡◌, refl, false, List, [], ◌∷◌,
}
use api_gateway_with_abuse_d.Platform.Reference.{reference, select_user, taken}
use api_gateway_with_abuse_d.Text.{split_words, is_lowered}
use api_gateway_with_abuse_d.App.{arrival, register, handle, serve}
use api_gateway_with_abuse_d.App.Cluster.{Move, happening, move, run_moves}
use api_gateway_with_abuse_d.Services.RateLimiter.{check_rate_limit}
use api_gateway_with_abuse_d.Middleware.Chain.{gateway, exception_handlers}
use api_gateway_with_abuse_d.Middleware.RequestId.{request_id_dispatch}
use api_gateway_with_abuse_d.Middleware.Auth.{auth_dispatch}
use api_gateway_with_abuse_d.Text.{is_one_of, has_prefix, non_empty_words, split_by}
use api_gateway_with_abuse_d.Middleware.BloomFilter.{bloom_filter_dispatch}
use api_gateway_with_abuse_d.Redis.{contains}
use api_gateway_with_abuse_d.Middleware.RateLimit.{rate_limit_dispatch}
use api_gateway_with_abuse_d.Middleware.AbuseDetector.{
  abuse_detector_dispatch, gather_and_score, enforce,
}
use api_gateway_with_abuse_d.Services.AbuseDetector.{
  record_request_timing, compute_timing_entropy, entropy_of,
}
use api_gateway_with_abuse_d.Services.GraduatedResponse.{compute_abuse_score, score_signals}
use api_gateway_with_abuse_d.Core.RedisClient.{is_shadow_mode_enabled}
use api_gateway_with_abuse_d.App.{path_of, route_of}
use api_gateway_with_abuse_d.Core.Security.{hash_password}
use api_gateway_with_abuse_d.Middleware.ShadowMode.{shadow_mode_dispatch}
use api_gateway_with_abuse_d.Prelude.{int, str}
use api_gateway_with_abuse_d.App.Cluster.Roles.{ReadsRole, registered-never_admin}
use api_gateway_with_abuse_d.World.{Exn, err}
use api_gateway_with_abuse_d.Routers.Admin.Access.{admin_route, post_shadow_mode}
use api_gateway_with_abuse_d.Core.Security.{verify_password, create_access_token}
use api_gateway_with_abuse_d.Services.AbuseDetector.{is_credential_stuffing}
use api_gateway_with_abuse_d.Routers.Auth
use api_gateway_with_abuse_d.Tests.{test_settings, quiet, request_of}
use api_gateway_with_abuse_d.Tests.Life.{idle}

reads_role : ReadsRole reference
reads_role claims t = elim (Option-cases claims.role) [
  | inl nothing ↦ rw nothing (inl refl)
  | inr (role, there) ↦ elim (Bool-cases (role == "")) [
    | inl empty ↦ rw (there, empty) (inl refl)
    | inr more ↦
        rw (there, more)
          (inr (record { sub = some "alice"; role = some role; exp = some 1800 }, refl, refl))
  ]
]

-- Somebody joins at the first process.
abbrev joining : List Move
joining = happening 1 (arrival (register "bob" "bob@example.org" "pw") (request_of "/" "")) ∷ []

registered-never_admin_example :
    (e : Exn) × (admin_route reference (post_shadow_mode false) (request_of "/" "Bearer user") quiet
      ≡ (err e, quiet))
unfolding run_moves Auth.login verify_password create_access_token is_credential_stuffing
    split_words is_lowered select_user gateway request_id_dispatch auth_dispatch is_one_of
    bloom_filter_dispatch contains rate_limit_dispatch abuse_detector_dispatch gather_and_score
    record_request_timing compute_timing_entropy compute_abuse_score score_signals entropy_of move
    handle path_of route_of serve hash_password exception_handlers int str Auth.register
    check_rate_limit has_prefix non_empty_words split_by is_shadow_mode_enabled enforce
    shadow_mode_dispatch taken
registered-never_admin_example =
    registered-never_admin reference test_settings joining idle 2 "bob" "pw" "user"
      (request_of "/" "") (request_of "/" "Bearer user") (post_shadow_mode false) quiet reads_role
      refl refl refl
