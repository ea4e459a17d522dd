-- ===== src/Services/AbuseDetector/Regular.antt =====
-- app/services/abuse_detector.py: a client whose requests come at a fixed distance.
use api_gateway_with_abuse_d.Prelude.{
  ℕ, zero, suc, ◌+◌, ◌-◌, ◌*◌, ◌<◌, ◌≤◌, min, String, ◌≡◌, refl, ap, true, Option, none, arith, inl,
  inr, Bool-cases, eq_refl,
}
use api_gateway_with_abuse_d.Redis.{exists}
use api_gateway_with_abuse_d.Redis.Keys.{request_times, blocked_ip}
use api_gateway_with_abuse_d.Platform.{Platform, Deviation}
use api_gateway_with_abuse_d.Config.{Fraction}
use api_gateway_with_abuse_d.World.{World, Exec, ok}
use api_gateway_with_abuse_d.World.Exec.{◌>>=◌}
use api_gateway_with_abuse_d.Services.GraduatedResponse.{
  ClientState, soft_block, score_signals, compute_abuse_score,
}
use api_gateway_with_abuse_d.Services.AbuseDetector.{
  record_request_timing, compute_timing_entropy, entropy_of,
}
use api_gateway_with_abuse_d.Services.AbuseDetector.Failures.{waited}
use api_gateway_with_abuse_d.Services.AbuseDetector.Timing.{ticks, ticks-soft_block}
use api_gateway_with_abuse_d.Services.AbuseDetector.Ticks.{scores-entries}
use api_gateway_with_abuse_d.Services.AbuseDetector.Kept.{
  IsTicking, kept, recorded-IsTicking, none-IsTicking,
}

module _ (p : Platform) (client_id : String) (samples gap : ℕ) where
  -- Requests of the client, each `gap` milliseconds after the one before.
  unfoldable pub run_ticks : ℕ → World p → World p
  run_ticks zero w = w
  run_ticks (suc n) w = run_ticks n (record_request_timing p client_id samples (waited gap w)).1

  abbrev IsRegular : ℕ → World p → Type 0
  IsRegular n w =
      IsTicking gap n (w.now + gap) (w.now + 3600 * 1000)
        (p.redis.cell (request_times client_id) w.db)

  module _ (apart : 0 < gap) (soon : gap < 3600 * 1000) where
    record_request_timing-IsRegular :
        (n : ℕ) (w : World p)
        → w.redis_up ≡ true
        → n ≤ samples
        → IsRegular n w
        → IsRegular
            (kept samples gap n)
            (record_request_timing p client_id samples (waited gap w)).1
          × ((record_request_timing p client_id samples (waited gap w)).1.redis_up ≡ true)
    unfolding record_request_timing
    record_request_timing-IsRegular n w up few regular =
        rw
          (
            up, p.redis.cell-expire, eq_refl, p.redis.cell-zremrangebyrank, eq_refl,
            p.redis.cell-zadd, eq_refl,
          )
          (
            recorded-IsTicking samples gap n (w.now + gap) (w.now + 3600 * 1000) _ apart few
                (omega arith) regular,
            refl,
          )

    run_ticks-IsRegular :
        (n m : ℕ) (w : World p)
        → w.redis_up ≡ true
        → m ≤ samples
        → 3 ≤ samples
        → IsRegular m w
        → (k : ℕ) × (min 3 (m + n) ≤ k)
          × IsRegular k (run_ticks n w)
          × ((run_ticks n w).redis_up ≡ true)
    unfolding run_ticks
    run_ticks-IsRegular zero m w up few enough regular = (m, omega arith, regular, up)
    run_ticks-IsRegular (suc n) m w up few enough regular =
        let (next, still_up) = record_request_timing-IsRegular m w up few regular in
        let (k, many, then_regular, then_up) =
          run_ticks-IsRegular n (kept samples gap m) _ still_up (ground arith) enough next in
        (k, ground arith, then_regular, then_up)

-- What gather_and_score does with the request times of a client.
unfoldable pub score_timing :
    (p : Platform) → String → String → ℕ → ℕ → ℕ → ℕ → Fraction → Exec p (ClientState × String)
score_timing p client_id ip ip_fails user_fails ip_threshold user_threshold threshold = do
  entropy ← compute_timing_entropy p client_id
  compute_abuse_score p ip ip_fails user_fails entropy ip_threshold user_threshold threshold

compute_abuse_score-soft_block :
    (p : Platform) (ip : String) (ip_fails user_fails : ℕ) (entropy : Option Deviation)
    (ip_threshold user_threshold : ℕ) (threshold : Fraction) (w : World p)
    → w.redis_up ≡ true
    → (score_signals p ip_fails user_fails entropy ip_threshold user_threshold threshold).0
      ≡ soft_block
    → (reason : String) × ((compute_abuse_score p ip ip_fails user_fails entropy ip_threshold
          user_threshold threshold w).0
        ≡ ok (soft_block, reason))
unfolding compute_abuse_score
compute_abuse_score-soft_block p ip ip_fails user_fails entropy ip_threshold user_threshold
      threshold w up soft =
    let verdict =
      score_signals p ip_fails user_fails entropy ip_threshold user_threshold threshold in
    elim (Bool-cases (exists p.redis w.now (blocked_ip ip) w.db)) [
      | inl there ↦ ("existing_soft_block", simp (up, there))
      | inr free ↦ (verdict.1, simp (up, free, soft) (ap (λ s. ok (s, verdict.1)) soft))
    ]

three_more : (k : ℕ) → 3 ≤ k → (n : ℕ) × (k ≡ suc (suc (suc n)))
three_more k many = (k - 3, omega arith)

entropy_of-regular :
    (p : Platform) (start gap k ip_fails user_fails ip_threshold user_threshold : ℕ)
    (threshold : Fraction)
    → 3 ≤ k
    → 0 < threshold.num
    → (score_signals p ip_fails user_fails
        (entropy_of (ticks start gap k))
        ip_threshold
        user_threshold
        threshold).0
      ≡ soft_block
entropy_of-regular p start gap k ip_fails user_fails ip_threshold user_threshold threshold many
      fraction =
    let (n, same) = three_more k many in
    rw same (
      ticks-soft_block p start gap n ip_fails user_fails ip_threshold user_threshold threshold
        fraction)

-- Redis is up, the key of a client's request times does not exist, and then the client comes three
-- times or more at a fixed distance, which is not zero and less than an hour. If at least three
-- times are kept and the threshold of the deviation is not zero, the score of its address is
-- SOFT_BLOCK after its last request, however many requests there are, whatever the distance is, and
-- whatever the numbers of its failed logins are.
pub run_ticks-soft_block :
    (p : Platform) (client_id ip : String)
    (samples gap n ip_fails user_fails ip_threshold user_threshold : ℕ) (threshold : Fraction)
    (w : World p)
    → w.redis_up ≡ true
    → p.redis.cell (request_times client_id) w.db ≡ none
    → 0 < gap
    → gap < 3600 * 1000
    → 3 ≤ samples
    → 3 ≤ n
    → 0 < threshold.num
    → (reason : String) × ((score_timing p client_id ip ip_fails user_fails ip_threshold
          user_threshold threshold
          (run_ticks p client_id samples gap n w)).0
        ≡ ok (soft_block, reason))
unfolding score_timing compute_timing_entropy
run_ticks-soft_block p client_id ip samples gap n ip_fails user_fails ip_threshold user_threshold
      threshold w up missing apart soon enough requests fraction =
    let (k, many, regular, still_up) =
      run_ticks-IsRegular p client_id samples gap apart soon n 0 w up (omega arith) enough
        (none-IsTicking gap (w.now + gap) (w.now + 3600 * 1000) _ missing) in
    let (reason, blocked) =
      compute_abuse_score-soft_block p ip ip_fails user_fails
        (entropy_of (ticks regular.start gap k)) ip_threshold user_threshold threshold
        (run_ticks p client_id samples gap n w) still_up
        (entropy_of-regular p regular.start gap k ip_fails user_fails ip_threshold user_threshold
          threshold (omega arith) fraction) in
    (
      reason,
      simp
          (
            still_up,
            regular.stored (run_ticks p client_id samples gap n w).now (omega arith),
            scores-entries (ticks regular.start gap k),
          )
          blocked,
    )
