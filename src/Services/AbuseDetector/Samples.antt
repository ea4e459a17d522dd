-- ===== src/Services/AbuseDetector/Samples.antt =====
-- app/services/abuse_detector.py: how many request times are kept.
use api_gateway_with_abuse_d.Prelude.{
  ℕ, ◌-◌, ◌≤◌, String, ◌≡◌, true, Option, none, some, List, [], ◌∷◌, arith, eq_refl, length,
  length-drop, max,
}
use api_gateway_with_abuse_d.Prelude.Int.{negsuc}
use api_gateway_with_abuse_d.Redis.{
  Cell, Value, Scored, text, members, scored, live, scored_of, cut_cell, cut_value, non_empty,
  expire_cell, remove_ranks, zrange,
}
use api_gateway_with_abuse_d.Redis.Keys.{request_times}
use api_gateway_with_abuse_d.Platform.{Platform}
use api_gateway_with_abuse_d.World.{World}
use api_gateway_with_abuse_d.Services.AbuseDetector.{record_request_timing}

module _ (f : List Scored → List Scored) (n t secs : ℕ)
    (short : (xs : List Scored) → length (f xs) ≤ n) where
  scored_length :
      (d : Option ℕ) (ys : List Scored)
      → length ys ≤ n
      → length (scored_of (live t (expire_cell t secs (live t (non_empty d ys))))) ≤ n
  scored_length d [] h = omega arith
  scored_length d (y ∷ ys) h = ground arith

  value_length :
      (d : Option ℕ) (v : Value)
      → length (scored_of (live t (expire_cell t secs (live t (cut_value f d v))))) ≤ n
  value_length d (text s) = ground arith
  value_length d (members ms) = ground arith
  value_length d (scored xs) = scored_length d (f xs) (short xs)

  cell_length :
      (c : Option Cell)
      → length (scored_of (live t (expire_cell t secs (live t (cut_cell f c))))) ≤ n
  cell_length none = omega arith
  cell_length (some c) = value_length c.deadline c.value

length-remove_ranks : (n : ℕ) (xs : List Scored) → length (remove_ranks 0 (negsuc n) xs) ≤ n
length-remove_ranks n xs = omega (arith, length-drop (max 0 (length xs - n)) xs)

-- While Redis is up, a client has at most the wanted number of request times after each request,
-- whatever its key held before.
pub record_request_timing-bounded :
    (p : Platform) (client_id : String) (max_samples : ℕ) (w : World p)
    → w.redis_up ≡ true
    → length (
        zrange p.redis w.now
          (request_times client_id)
          (record_request_timing p client_id max_samples w).1.db)
      ≤ max_samples
unfolding record_request_timing
record_request_timing-bounded p client_id max_samples w up =
    simp (up, p.redis.cell-expire, p.redis.cell-zremrangebyrank, eq_refl)
      (cell_length (remove_ranks 0 (negsuc max_samples)) max_samples w.now 3600
        (length-remove_ranks max_samples) _)
