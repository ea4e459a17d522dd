-- ===== src/Services/RateLimiter/Effects.antt =====
-- What the script's two writes leave at a client's key that holds a sorted set, or nothing.
use api_gateway_with_abuse_d.Prelude.{
  ℕ, ◌+◌, ◌*◌, ◌≤◌, String, ◌≡◌, refl, [], ltb, if◌then◌else◌, keep, eq_refl,
}
use api_gateway_with_abuse_d.Prelude.Int.{sub_ℕ}
use api_gateway_with_abuse_d.Redis.{Redis, zrange, outside, insert_scored}
use api_gateway_with_abuse_d.Redis.SortedSet.{
  IsSortedSet, cut_cell-IsSortedSet, scored_of-cut_cell, scored_of-added, added-IsSortedSet,
}
use api_gateway_with_abuse_d.Redis.Keys.{rate_limit}
use api_gateway_with_abuse_d.Services.RateLimiter.{request_id_of}

module _ (redis : Redis) (client_id : String) (window : ℕ) where
  abbrev pub pruned : ℕ → redis.Db → redis.Db
  pruned t db = redis.zremrangebyscore t (rate_limit client_id) 0 (sub_ℕ t (window * 1000)) db

  abbrev pub added : ℕ → redis.Db → redis.Db
  added t db =
      redis.expire t (rate_limit client_id) (window + 1)
        (redis.zadd t (rate_limit client_id) t (request_id_of t client_id) db)

  module _ (db : redis.Db) (typed : IsSortedSet (redis.cell (rate_limit client_id) db)) where
    pub zrange-pruned :
        (t t' : ℕ)
        → t ≤ t'
        → zrange redis t' (rate_limit client_id) (pruned t db)
          ≡ keep (outside 0 (sub_ℕ t (window * 1000))) (zrange redis t' (rate_limit client_id) db)
    zrange-pruned t t' le =
        rw (redis.cell-zremrangebyscore, eq_refl)
          (scored_of-cut_cell _ t t' (redis.cell (rate_limit client_id) db) refl le typed)

    pub pruned-IsSortedSet : (t : ℕ) → IsSortedSet (redis.cell (rate_limit client_id) (pruned t db))
    pruned-IsSortedSet t =
        rw (redis.cell-zremrangebyscore, eq_refl)
          (cut_cell-IsSortedSet _ t (redis.cell (rate_limit client_id) db) typed)

    pub zrange-added_typed :
        (t t' : ℕ)
        → zrange redis t' (rate_limit client_id) (added t db) ≡ (
            if ltb t' (t + (window + 1) * 1000)
            then insert_scored
                (record { member = request_id_of t client_id; score = t })
                (zrange redis t (rate_limit client_id) db)
            else [])
    zrange-added_typed t t' =
        rw (redis.cell-expire, eq_refl, redis.cell-zadd, eq_refl)
          (scored_of-added t (request_id_of t client_id) t (window + 1) t' _ typed)

    pub added_key-IsSortedSet :
        (t : ℕ) → IsSortedSet (redis.cell (rate_limit client_id) (added t db))
    added_key-IsSortedSet t =
        rw (redis.cell-expire, eq_refl, redis.cell-zadd, eq_refl)
          (added-IsSortedSet t (request_id_of t client_id) t (window + 1) _ typed)
