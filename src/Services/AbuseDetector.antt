-- ===== src/Services/AbuseDetector.antt =====
-- app/services/abuse_detector.py: failed logins on two axes, and the regularity of requests.
pub mod Failures
mod Kept
pub mod Lockout
pub mod Regular
pub mod Samples
pub mod Ticks
pub mod Timing
use api_gateway_with_abuse_d.Prelude.{
  ℕ, ◌+◌, ◌-◌, ◌*◌, String, append, Bool, true, false, Option, none, some, List, [], ◌∷◌, map, ltb,
  leb, ◌==◌, if◌then◌else◌, length, str, int,
}
use api_gateway_with_abuse_d.Prelude.Int.{negsuc}
use api_gateway_with_abuse_d.Redis.{get, zrange}
use api_gateway_with_abuse_d.Redis.Keys.{failed_auth, request_times}
use api_gateway_with_abuse_d.Platform.{Platform, Deviation}
use api_gateway_with_abuse_d.Config.{Fraction, below}
use api_gateway_with_abuse_d.World.{Exec, value_error}
use api_gateway_with_abuse_d.World.Exec.{pure, raise, now_ms, query, execute, ◌>>=◌, ◌>>◌}

-- AbuseDetector.record_auth_failure: one pipeline of four commands
unfoldable pub record_auth_failure : (p : Platform) → String → String → ℕ → Exec p (Unit {0})
record_auth_failure p ip username window_seconds = execute p (λ t db.
    p.redis.expire t (failed_auth username) window_seconds (
      p.redis.incr t (failed_auth username)
        (p.redis.expire t (failed_auth ip) window_seconds (p.redis.incr t (failed_auth ip) db))))

abbrev pub parsed : {p : Platform} → Option ℕ → Exec p ℕ
parsed none = raise value_error
parsed (some n) = pure n

-- `int(raw or 0)`
abbrev pub int_or_zero : {p : Platform} → Option String → Exec p ℕ
int_or_zero none = pure 0
int_or_zero (some s) = if s == "" then pure 0 else parsed (int s)

abbrev pub stuffing_verdict : ℕ → ℕ → ℕ → ℕ → Bool × String
stuffing_verdict ip_count user_count ip_threshold user_threshold =
    if leb ip_threshold ip_count
    then (true, append "ip_threshold_exceeded:" (str ip_count))
    else if leb user_threshold user_count
    then (true, append "user_threshold_exceeded:" (str user_count))
    else (false, "")

-- MGET of two keys.
abbrev pub mget : (p : Platform) → String → String → ℕ → p.redis.Db → Option String × Option String
mget p j k t db = (get p.redis t j db, get p.redis t k db)

-- AbuseDetector.is_credential_stuffing
unfoldable pub is_credential_stuffing :
    (p : Platform) → String → String → ℕ → ℕ → Exec p (Bool × String)
is_credential_stuffing p ip username ip_threshold user_threshold = do
  raw ← query p (mget p (failed_auth ip) (failed_auth username))
  ip_count ← int_or_zero raw.0
  user_count ← int_or_zero raw.1
  pure (stuffing_verdict ip_count user_count ip_threshold user_threshold)

-- AbuseDetector.record_request_timing
unfoldable pub record_request_timing : (p : Platform) → String → ℕ → Exec p (Unit {0})
record_request_timing p client_id max_samples = do
  now ← now_ms p
  execute p (λ t db. p.redis.expire t (request_times client_id) 3600 (
      p.redis.zremrangebyrank t (request_times client_id) 0 (negsuc max_samples)
        (p.redis.zadd t (request_times client_id) now (str now) db)))

-- The scores come in ascending order, so no gap is below zero.
unfoldable pub gaps_of : List ℕ → List ℕ
gaps_of [] = []
gaps_of (x ∷ []) = []
gaps_of (x ∷ y ∷ rest) = (y - x) ∷ gaps_of (y ∷ rest)

unfoldable pub sum : List ℕ → ℕ
sum [] = 0
sum (x ∷ xs) = x + sum xs

-- `statistics.stdev`: the sum of squared deviations over n - 1, both multiplied by n.
unfoldable pub stdev : List ℕ → Deviation
unfolding sum
stdev xs = record {
  squares = length xs * sum (map (λ x. x * x) xs) - sum xs * sum xs;
  over = length xs * (length xs - 1);
}

unfoldable pub entropy_of : List ℕ → Option Deviation
unfolding gaps_of stdev
entropy_of scores =
    if ltb (length scores) 3
    then none
    else let gaps = gaps_of scores in if ltb (length gaps) 2 then none else some (stdev gaps)

-- AbuseDetector.compute_timing_entropy
unfoldable pub compute_timing_entropy : (p : Platform) → String → Exec p (Option Deviation)
compute_timing_entropy p client_id = do
  timestamps ← query p (λ t db. zrange p.redis t (request_times client_id) db)
  pure (entropy_of (map (λ e. e.score) timestamps))

abbrev bot_verdict : Platform → Fraction → Option Deviation → Bool × String
bot_verdict p threshold none = (false, "insufficient_samples")
bot_verdict p threshold (some entropy) =
    if below entropy threshold
    then (true, append "low_timing_entropy:" (p.fixed_2 entropy))
    else (false, "")

-- AbuseDetector.is_bot_behavior
pub is_bot_behavior : (p : Platform) → String → Fraction → ℕ → Exec p (Bool × String)
unfolding record_request_timing compute_timing_entropy
is_bot_behavior p client_id entropy_threshold max_samples = do
  record_request_timing p client_id max_samples
  entropy ← compute_timing_entropy p client_id
  pure (bot_verdict p entropy_threshold entropy)
