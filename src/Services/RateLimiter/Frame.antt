-- ===== src/Services/RateLimiter/Frame.antt =====
-- What a call of the rate limiter leaves alone.
use api_gateway_with_abuse_d.Prelude.{
  ℕ, String, ◌≡◌, false, List, ◌==◌, arith, ltb, length, Bool-cases, inl, inr, ◌∙◌,
}
use api_gateway_with_abuse_d.Redis.{Redis, zrange}
use api_gateway_with_abuse_d.Redis.Keys.{rate_limit}
use api_gateway_with_abuse_d.Platform.{Platform}
use api_gateway_with_abuse_d.World.{World}
use api_gateway_with_abuse_d.Services.RateLimiter.{check_rate_limit}
use api_gateway_with_abuse_d.Services.RateLimiter.Step.{Agrees}
use api_gateway_with_abuse_d.Services.RateLimiter.Effects.{pruned, added}

module _ (redis : Redis) (client_id : String) (window t : ℕ) (k : String)
    (other : (rate_limit client_id == k) ≡ false) where
  pub cell-pruned :
      (db : redis.Db) → redis.cell k (pruned redis client_id window t db) ≡ redis.cell k db
  cell-pruned db = rw (redis.cell-zremrangebyscore, other)

  pub cell-added :
      (db : redis.Db) → redis.cell k (added redis client_id window t db) ≡ redis.cell k db
  cell-added db = rw (redis.cell-expire, other, redis.cell-zadd, other)

-- A call writes no key but its client's own.
pub cell-check_rate_limit :
    (p : Platform) (client_id : String) (limit window : ℕ) (w : World p) (k : String)
    → (rate_limit client_id == k) ≡ false
    → p.redis.cell k (check_rate_limit p client_id limit window w).1.db ≡ p.redis.cell k w.db
unfolding check_rate_limit
cell-check_rate_limit p client_id limit window w k other = elim (Bool-cases w.redis_up) [
  | inr down ↦ rw down
  | inl up ↦
      elim (Bool-cases (
        ltb
          (length (
            zrange p.redis w.now (rate_limit client_id)
              (pruned p.redis client_id window w.now w.db)))
          limit)) [
            | inl room ↦
                rw (up, room)
                  (cell-added p.redis client_id window w.now k other
                      (pruned p.redis client_id window w.now w.db)
                    ∙ cell-pruned p.redis client_id window w.now k other w.db)
            | inr full ↦ rw (up, full) (cell-pruned p.redis client_id window w.now k other w.db)
          ]
]

pub check_rate_limit-keeps :
    (p : Platform) (client_id : String) (limit window : ℕ) (w : World p)
    → ((check_rate_limit p client_id limit window w).1.redis_up ≡ w.redis_up)
      × ((check_rate_limit p client_id limit window w).1.now ≡ w.now)
unfolding check_rate_limit
check_rate_limit-keeps p client_id limit window w = ground arith

-- Agreement with a client's log looks at that client's key only.
pub Agrees-of_cell :
    (redis : Redis) (client_id : String) (window last : ℕ) (admitted : List ℕ) (db db' : redis.Db)
    → redis.cell (rate_limit client_id) db' ≡ redis.cell (rate_limit client_id) db
    → Agrees redis client_id window last admitted db
    → Agrees redis client_id window last admitted db'
Agrees-of_cell redis client_id window last admitted db db' e a = record {
  typed = rw e a.typed;
  bounded = a.bounded;
  counts = λ t x h k. rw e (a.counts t x h k);
  owned = λ t h. rw e (a.owned t h);
}
