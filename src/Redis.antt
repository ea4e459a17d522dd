-- ===== src/Redis.antt =====
-- The Redis server that the gateway calls through redis-py: a parameter of the model. What the
-- code relies on are the documented effects of each command on the key that it names, as laws.
-- A command takes the time at which the server runs it, in milliseconds.
mod Entry
pub mod Memory
pub mod Keys
pub mod SortedSet
pub mod Members
pub mod Reference
unfoldable pub use Entry.*
use api_gateway_with_abuse_d.Prelude.{
  ℕ, String, ◌≡◌, Option, List, Bool, ◌&&◌, ◌==◌, starts_with, if◌then◌else◌,
}
use api_gateway_with_abuse_d.Prelude.Int.{ℤ}

pub record Redis : Type 1 where
  pub Db : Type 0
  -- What is stored at a key, with its time of expiry.
  pub cell : String → Db → Option Cell
  -- The keys that SCAN visits for a prefix and `*`; it may visit a key more than once.
  pub scan : ℕ → String → Db → List String
  -- SET key value [EX seconds]; DEL key; INCR key; EXPIRE key seconds; SADD key member;
  -- ZADD key score member; ZREMRANGEBYSCORE key min max; ZREMRANGEBYRANK key start stop
  pub set : ℕ → String → String → Option ℕ → Db → Db
  pub delete : String → Db → Db
  pub incr : ℕ → String → Db → Db
  pub expire : ℕ → String → ℕ → Db → Db
  pub sadd : ℕ → String → String → Db → Db
  pub zadd : ℕ → String → ℕ → String → Db → Db
  pub zremrangebyscore : ℕ → String → ℕ → ℤ → Db → Db
  pub zremrangebyrank : ℕ → String → ℕ → ℤ → Db → Db
  pub contains-scan :
      (t : ℕ) (prefix : String) (db : Db) (k : String)
      → contains k (scan t prefix db) ≡ (starts_with k prefix && is_some (live t (cell k db)))
  pub cell-set :
      (t : ℕ) (k v : String) (ex : Option ℕ) (db : Db) (j : String)
      → cell j (set t k v ex db) ≡ (if k == j then set_cell t v ex else cell j db)
  pub cell-delete :
      (k : String) (db : Db) (j : String)
      → cell j (delete k db) ≡ (if k == j then Option.none else cell j db)
  pub cell-incr :
      (t : ℕ) (k : String) (db : Db) (j : String)
      → cell j (incr t k db) ≡ (if k == j then incr_cell (live t (cell k db)) else cell j db)
  pub cell-expire :
      (t : ℕ) (k : String) (secs : ℕ) (db : Db) (j : String)
      → cell j (expire t k secs db)
        ≡ (if k == j then expire_cell t secs (live t (cell k db)) else cell j db)
  pub cell-sadd :
      (t : ℕ) (k m : String) (db : Db) (j : String)
      → cell j (sadd t k m db) ≡ (if k == j then sadd_cell m (live t (cell k db)) else cell j db)
  pub cell-zadd :
      (t : ℕ) (k : String) (score : ℕ) (m : String) (db : Db) (j : String)
      → cell j (zadd t k score m db)
        ≡ (if k == j then zadd_cell score m (live t (cell k db)) else cell j db)
  pub cell-zremrangebyscore :
      (t : ℕ) (k : String) (lo : ℕ) (hi : ℤ) (db : Db) (j : String)
      → cell j (zremrangebyscore t k lo hi db)
        ≡ (if k == j then filter_cell (outside lo hi) (live t (cell k db)) else cell j db)
  pub cell-zremrangebyrank :
      (t : ℕ) (k : String) (start : ℕ) (stop : ℤ) (db : Db) (j : String)
      → cell j (zremrangebyrank t k start stop db)
        ≡ (if k == j then cut_cell (remove_ranks start stop) (live t (cell k db)) else cell j db)

module _ (redis : Redis) where
  -- The reads: a key past its expiry answers as a missing one.
  -- GET, EXISTS, SMEMBERS, ZRANGE 0 -1 WITHSCORES and ZCARD
  abbrev pub get : ℕ → String → redis.Db → Option String
  get t k db = text_of (live t (redis.cell k db))

  abbrev pub exists : ℕ → String → redis.Db → Bool
  exists t k db = is_some (live t (redis.cell k db))

  abbrev pub smembers : ℕ → String → redis.Db → List String
  smembers t k db = members_of (live t (redis.cell k db))

  abbrev pub zrange : ℕ → String → redis.Db → List Scored
  zrange t k db = scored_of (live t (redis.cell k db))
