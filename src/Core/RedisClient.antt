-- ===== src/Core/RedisClient.antt =====
-- app/core/redis_client.py
pub mod Connect
use api_gateway_with_abuse_d.Prelude.{
  ℕ, zero, suc, ◌+◌, ◌-◌, ◌*◌, ◌^◌, String, Bool, true, false, Option, none, some, eqb,
  if◌then◌else◌,
}
use api_gateway_with_abuse_d.Redis.{get}
use api_gateway_with_abuse_d.Platform.{Platform}
use api_gateway_with_abuse_d.Text.{is_lowered}
use api_gateway_with_abuse_d.World.{Exec, connection_error}
use api_gateway_with_abuse_d.World.Exec.{pure, raise, now_ms, query, sleep, ◌>>=◌, ◌>>◌}

abbrev pub max_retries : ℕ
max_retries = 5

-- The rounds of `for attempt in range(1, _MAX_RETRIES + 1)` that are left, and the attempt that is
-- next. Whether the server answers a ping at a time is the environment's.
unfoldable pub connect : (p : Platform) → (ℕ → Bool) → ℕ → ℕ → Exec p (Unit {0})
connect p answers zero attempt = raise connection_error
connect p answers (suc rounds) attempt = do
  now ← now_ms p
  let again = do sleep p (2 ^ (attempt - 1)); connect p answers rounds (attempt + 1)
  if answers now then pure tt else if eqb attempt max_retries then raise connection_error else again

unfoldable pub create_redis_client : (p : Platform) → (ℕ → Bool) → Exec p (Unit {0})
unfolding connect
create_redis_client p answers = connect p answers max_retries 1

abbrev pub is_true_text : Bool → Option String → Bool
is_true_text fallback none = fallback
is_true_text fallback (some val) = is_lowered val "true"

unfoldable pub is_shadow_mode_enabled : (p : Platform) → Bool → Exec p Bool
is_shadow_mode_enabled p fallback = do
  val ← query p (λ t db. get p.redis t "config:shadow_mode_enabled" db)
  pure (is_true_text fallback val)
