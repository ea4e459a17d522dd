-- ===== src/World.antt =====
-- The state that the coroutines of one gateway process share, and the monad in which they run: a
-- coroutine returns or raises, and what it has written before a raise stays written.
pub mod Http
pub mod Exec
pub mod Inversion
use api_gateway_with_abuse_d.Prelude.{ℕ, String, Bool, Option, List, [], ◌∷◌, ◌++◌, if◌then◌else◌}
use api_gateway_with_abuse_d.Prelude.Int.{ℤ}
use api_gateway_with_abuse_d.Platform.{Platform, DatabaseError}

-- HTTPException of FastAPI, ValueError of `int`, IndexError of a full Bloom filter, ConnectionError
-- of redis-py, ValueError of bcrypt, and what SQLAlchemy raises.
pub data Exn : Type 0 where
  http_error : (status : ℕ) → (detail : String) → (headers : List (String × String)) → Exn
  value_error index_error connection_error password_error : Exn
  database_error : DatabaseError → Exn

pub data Result (A : Type 0) : Type 0 where
  ok : A → Result A
  err : Exn → Result A

-- An increment of a Prometheus counter, with its labels, or what the histogram observes, in
-- milliseconds (app/core/metrics.py).
pub data Metric : Type 0 where
  rate_limit_rejection : (client_id : String) → Metric
  bloom_filter_hit : (filter_type : String) → Metric
  abuse_detection : (state : String) → (reason_type : String) → Metric
  request_duration : (milliseconds : ℕ) → Metric
  request_total : (status_code : String) → (route : String) → Metric

-- What the connection pool of SQLAlchemy answers; its overflow counts up from minus its size.
pub record Pool : Type 0 where
  pub checked_out : ℕ
  pub checked_in : ℕ
  pub overflow : ℤ
  pub size : ℕ

-- db_pool_checkedout and db_pool_overflow
pub record Gauges : Type 0 where
  pub checkedout : ℕ
  pub overflow : ℤ

module _ (p : Platform) where
  -- The fields of a BloomFilterService.
  pub record BloomService : Type 0 where
    pub ip_filter : p.bloom.Filter
    pub agent_filter : p.bloom.Filter
    pub loaded_ip_count : ℕ
    pub loaded_agent_count : ℕ

  pub record World : Type 0 where
    -- the clock in milliseconds, and the time slept so far is part of it
    pub now : ℕ
    pub redis_up : Bool
    pub db : p.redis.Db
    -- app.state.bloom, and the service that the sync worker makes for itself
    pub bloom : BloomService
    pub worker_bloom : BloomService
    pub users : p.users.Table
    pub metrics : List Metric
    pub gauges : Gauges
    pub pool : Pool
    -- how many random values have been drawn
    pub draws : ℕ

  abbrev pub Exec : Type 0 → Type 0
  Exec A = World → Result A × World
