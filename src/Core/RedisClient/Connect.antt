-- ===== src/Core/RedisClient/Connect.antt =====
-- app/core/redis_client.py: how often and how long `create_redis_client` tries.
use api_gateway_with_abuse_d.Prelude.{ℕ, ◌+◌, ◌*◌, ◌≡◌, Bool, arith, if◌then◌else◌}
use api_gateway_with_abuse_d.Platform.{Platform}
use api_gateway_with_abuse_d.World.{World, ok, err, connection_error}
use api_gateway_with_abuse_d.Core.RedisClient.{connect, create_redis_client}

-- The seconds after the start at which the server is asked.
abbrev pub answers_at : (ℕ → Bool) → ℕ → ℕ → Bool
answers_at answers start seconds = answers (start + seconds * 1000)

-- The client is created exactly when the server answers 0, 1, 3, 7 or 15 seconds after the start,
-- and ConnectionError is raised otherwise, 15 seconds after the start. No other state changes.
pub create_redis_client-attempts :
    (p : Platform) (answers : ℕ → Bool) (w : World p)
    → create_redis_client p answers w ≡ (
        if answers w.now
        then (ok tt, w)
        else if answers_at answers w.now 1
        then (ok tt, record w { now = w.now + 1 * 1000 })
        else if answers_at answers w.now 3
        then (ok tt, record w { now = w.now + 3 * 1000 })
        else if answers_at answers w.now 7
        then (ok tt, record w { now = w.now + 7 * 1000 })
        else if answers_at answers w.now 15
        then (ok tt, record w { now = w.now + 15 * 1000 })
        else (err connection_error, record w { now = w.now + 15 * 1000 }))
unfolding create_redis_client connect
create_redis_client-attempts p answers w = ground arith
