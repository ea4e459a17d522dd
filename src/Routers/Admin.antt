-- ===== src/Routers/Admin.antt =====
-- app/routers/admin.py: each route checks the admin role before its body.
pub mod Access
pub mod Effects
use api_gateway_with_abuse_d.Prelude.{String, Bool, true, false, none, List, [], ◌∷◌, if◌then◌else◌}
use api_gateway_with_abuse_d.Platform.{Platform}
use api_gateway_with_abuse_d.World.{Exec}
use api_gateway_with_abuse_d.World.Http.{Request, Response, Scalar, text, flag, number, table}
use api_gateway_with_abuse_d.World.Exec.{pure, gets, execute, ◌>>=◌, ◌>>◌}
use api_gateway_with_abuse_d.Dependencies.{require_admin}
use api_gateway_with_abuse_d.Services.BloomFilter.{
  app_state, add_ip_to_redis, add_agent_to_redis, might_contain_ip,
}
use api_gateway_with_abuse_d.Services.GraduatedResponse.{
  soft_block_ttl, is_soft_block, get_client_state, apply_soft_block, remove_soft_block,
}
use api_gateway_with_abuse_d.Services.ShadowLogger.{get_shadow_stats}

abbrev pub json_response : List (String × Scalar) → Response
json_response body = record { status = 200; body = body; headers = [] }

unfoldable pub shadow_stats : (p : Platform) → Request → Exec p Response
shadow_stats p request = do
  require_admin p request
  stats ← get_shadow_stats p
  pure (json_response (("total", number stats.total) ∷ ("by_rule", table stats.by_rule) ∷ []))

unfoldable pub block_ip : (p : Platform) → String → Request → Exec p Response
block_ip p ip request = do
  require_admin p request
  add_ip_to_redis p app_state ip
  pure (json_response (("hard_blocked", text ip) ∷ []))

unfoldable pub block_agent : (p : Platform) → String → Request → Exec p Response
block_agent p user_agent request = do
  require_admin p request
  add_agent_to_redis p app_state user_agent
  pure (json_response (("blocked_agent", text user_agent) ∷ []))

unfoldable pub soft_block_ip : (p : Platform) → String → Request → Exec p Response
soft_block_ip p ip request = do
  require_admin p request
  apply_soft_block p ip soft_block_ttl
  pure (json_response (("soft_blocked", text ip) ∷ []))

unfoldable pub unblock_ip : (p : Platform) → String → Request → Exec p Response
unblock_ip p ip request = do
  require_admin p request
  remove_soft_block p ip
  pure (json_response (("unblocked", text ip) ∷ []))

unfoldable pub block_status : (p : Platform) → String → Request → Exec p Response
block_status p ip request = do
  require_admin p request
  state ← get_client_state p ip
  in_bloom ← gets (might_contain_ip p app_state ip)
  pure (
      json_response (
        ("ip", text ip)
        ∷ ("soft_blocked", flag (is_soft_block state))
        ∷ ("hard_blocked_bloom", flag in_bloom)
        ∷ []))

-- `str(enabled).lower()`
abbrev pub bool_text : Bool → String
bool_text enabled = if enabled then "true" else "false"

unfoldable pub set_shadow_mode : (p : Platform) → Bool → Request → Exec p Response
set_shadow_mode p enabled request = do
  require_admin p request
  execute p (λ t db. p.redis.set t "config:shadow_mode_enabled" (bool_text enabled) none db)
  pure (json_response (("shadow_mode_enabled", flag enabled) ∷ []))
