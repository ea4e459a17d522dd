-- ===== src/Services/GraduatedResponse.antt =====
-- app/services/graduated_response.py: the states of enforcement, and the score that picks one.
pub mod Score
pub mod Block
use api_gateway_with_abuse_d.Prelude.{
  ℕ, ◌*◌, String, append, Bool, true, false, ◌&&◌, ◌||◌, Option, none, some, ltb, leb, eqb, not,
  ◌==◌, if◌then◌else◌, str,
}
use api_gateway_with_abuse_d.Redis.{exists}
use api_gateway_with_abuse_d.Redis.Keys.{blocked_ip}
use api_gateway_with_abuse_d.Platform.{Platform, Deviation}
use api_gateway_with_abuse_d.Config.{Fraction, half_of, below}
use api_gateway_with_abuse_d.World.{Exec}
use api_gateway_with_abuse_d.World.Exec.{pure, query, execute, sleep, ◌>>=◌, ◌>>◌}

abbrev pub soft_block_ttl : ℕ
soft_block_ttl = 300

abbrev pub throttle_delay_seconds : ℕ
throttle_delay_seconds = 2

pub data ClientState : Type 0 where
  allowed throttled soft_block hard_block : ClientState

-- The value of the StrEnum.
abbrev pub value_of : ClientState → String
value_of allowed = "allowed"
value_of throttled = "throttled"
value_of soft_block = "soft_block"
value_of hard_block = "hard_block"

abbrev pub is_allowed : ClientState → Bool
is_allowed allowed = true
is_allowed _ = false

abbrev pub is_soft_block : ClientState → Bool
is_soft_block soft_block = true
is_soft_block _ = false

-- GraduatedResponseService.get_client_state
unfoldable pub get_client_state : (p : Platform) → String → Exec p ClientState
get_client_state p ip = do
  is_blocked ← query p (λ t db. exists p.redis t (blocked_ip ip) db)
  pure (if is_blocked then soft_block else allowed)

-- GraduatedResponseService.apply_soft_block; the program always passes 300 seconds, and Redis would
-- refuse an expiry of zero.
unfoldable pub apply_soft_block : (p : Platform) → String → ℕ → Exec p (Unit {0})
apply_soft_block p ip ttl = execute p (λ t db. p.redis.set t (blocked_ip ip) "1" (some ttl) db)

-- GraduatedResponseService.remove_soft_block
unfoldable pub remove_soft_block : (p : Platform) → String → Exec p (Unit {0})
remove_soft_block p ip = execute p (λ t db. p.redis.delete (blocked_ip ip) db)

-- GraduatedResponseService.apply_throttle
unfoldable pub apply_throttle : (p : Platform) → Exec p (Unit {0})
apply_throttle p = sleep p throttle_delay_seconds

-- `count / threshold >= 0.7`, where the ratio to a threshold of zero is 0.
abbrev pub is_near : ℕ → ℕ → Bool
is_near count threshold = not (eqb threshold 0) && leb (7 * threshold) (10 * count)

-- `timing_entropy is not None and timing_entropy < r`
abbrev pub is_below : Option Deviation → Fraction → Bool
is_below none r = false
is_below (some entropy) r = below entropy r

abbrev pub entropy_reason : Platform → String → Option Deviation → String
entropy_reason p prefix none = prefix
entropy_reason p prefix (some entropy) = append prefix (p.fixed_2 entropy)

-- The ladder of compute_abuse_score behind the check of an existing block: the state, its reason,
-- and whether the address is to be blocked.
unfoldable pub score_signals :
    (p : Platform) → ℕ → ℕ → Option Deviation → ℕ → ℕ → Fraction → ClientState × String
score_signals p ip_fail_count user_fail_count timing_entropy ip_threshold user_threshold
      entropy_threshold =
    let low_entropy = is_below timing_entropy entropy_threshold in
    if leb ip_threshold ip_fail_count
    then (soft_block, append "ip_failures:" (str ip_fail_count))
    else if leb user_threshold user_fail_count
    then (soft_block, append "user_failures:" (str user_fail_count))
    else if low_entropy && is_below timing_entropy (half_of entropy_threshold)
    then (soft_block, entropy_reason p "very_low_entropy:" timing_entropy)
    else if is_near ip_fail_count ip_threshold || is_near user_fail_count user_threshold
    then (throttled, "approaching_auth_threshold")
    else if low_entropy
    then (throttled, entropy_reason p "low_entropy:" timing_entropy)
    else (allowed, "")

abbrev blocked : (p : Platform) → String → ClientState × String → Exec p (ClientState × String)
blocked p ip verdict = do apply_soft_block p ip soft_block_ttl; pure verdict

-- GraduatedResponseService.compute_abuse_score: each branch that answers SOFT_BLOCK from the
-- signals applies the block first.
unfoldable pub compute_abuse_score :
    (p : Platform)
    → String
    → ℕ
    → ℕ
    → Option Deviation
    → ℕ
    → ℕ
    → Fraction
    → Exec p (ClientState × String)
unfolding get_client_state apply_soft_block
compute_abuse_score p ip ip_fail_count user_fail_count timing_entropy ip_threshold user_threshold
      entropy_threshold =
    do
      existing_state ← get_client_state p ip
      let verdict =
          score_signals p ip_fail_count user_fail_count timing_entropy ip_threshold user_threshold
            entropy_threshold
      if is_soft_block existing_state
          then pure (soft_block, "existing_soft_block")
          else if is_soft_block verdict.0
          then blocked p ip verdict
          else pure verdict
