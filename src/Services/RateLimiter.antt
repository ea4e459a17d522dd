-- ===== src/Services/RateLimiter.antt =====
-- app/services/rate_limiter.py: the Lua script, and the method that calls it.
pub mod Step
mod Frame
mod Effects
pub mod Burst
pub mod Window
pub mod Swap
use api_gateway_with_abuse_d.Prelude.{
  ℕ, ◌+◌, ◌-◌, ◌*◌, String, append, Bool, true, false, ltb, eqb, if◌then◌else◌, not, length, str,
}
use api_gateway_with_abuse_d.Prelude.Int.{sub_ℕ}
use api_gateway_with_abuse_d.Redis.{Redis, zrange}
use api_gateway_with_abuse_d.Redis.Keys.{rate_limit}
use api_gateway_with_abuse_d.Platform.{Platform}
use api_gateway_with_abuse_d.World.{Exec}
use api_gateway_with_abuse_d.World.Exec.{pure, now_ms, call, ◌>>=◌}

-- The script's body, which no other client can interleave: its answer and the new store.
unfoldable pub sliding_window_script :
    (redis : Redis) (key : String) (now window limit : ℕ) (request_id : String) (t : ℕ)
    → redis.Db
    → (ℕ × ℕ) × redis.Db
sliding_window_script redis key now window limit request_id t db =
    let pruned = redis.zremrangebyscore t key 0 (sub_ℕ now (window * 1000)) db in
    let count = length (zrange redis t key pruned) in
    if ltb count limit
    then (
      (1, limit - count - 1),
      redis.expire t key (window + 1) (redis.zadd t key now request_id pruned),
    )
    else ((0, 0), pruned)

abbrev pub request_id_of : ℕ → String → String
request_id_of now client_id = append (str now) (append "-" client_id)

-- RateLimiter.check_rate_limit
unfoldable pub check_rate_limit : (p : Platform) → String → ℕ → ℕ → Exec p (Bool × ℕ)
unfolding sliding_window_script
check_rate_limit p client_id limit window_seconds = do
  now ← now_ms p
  result ← call p (
      sliding_window_script p.redis (rate_limit client_id) now window_seconds limit
        (request_id_of now client_id))
  pure (not (eqb result.0 0), result.1)
