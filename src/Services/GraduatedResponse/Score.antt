-- ===== src/Services/GraduatedResponse/Score.antt =====
-- app/services/graduated_response.py: what the ladder of scores answers for which signals.
use api_gateway_with_abuse_d.Prelude.{
  ℕ, ◌*◌, ◌≤◌, ◌<◌, ◌≡◌, ◌⊎◌, ◌↔◌, ◌≢◌, true, false, Option, none, some, arith, ltb→lt, lt→ltb,
}
use api_gateway_with_abuse_d.Platform.{Platform, Deviation}
use api_gateway_with_abuse_d.Config.{Fraction, half_of, below}
use api_gateway_with_abuse_d.Services.GraduatedResponse.{
  ClientState, allowed, throttled, soft_block, hard_block, is_below, score_signals,
}

below_half : (d : Deviation) (r : Fraction) → below d (half_of r) ≡ true → below d r ≡ true
below_half d r h = lt→ltb _ _ (omega (arith, ltb→lt _ _ h))

is_below_half :
    (e : Option Deviation) (r : Fraction) → is_below e (half_of r) ≡ true → is_below e r ≡ true
is_below_half none r h = h
is_below_half (some d) r h = below_half d r h

-- The order in which the states escalate.
abbrev pub rank : ClientState → ℕ
rank allowed = 0
rank throttled = 1
rank soft_block = 2
rank hard_block = 3

-- Which signals lead to which state, whatever the thresholds: ALLOWED exactly below 70% of both
-- failure thresholds and with no low deviation; SOFT_BLOCK exactly with a threshold reached or a
-- deviation below half of its threshold; and HARD_BLOCK never.
pub score_signals-state :
    (p : Platform) (ip_fails user_fails : ℕ) (entropy : Option Deviation)
    (ip_threshold user_threshold : ℕ) (threshold : Fraction)
    → (((score_signals p ip_fails user_fails entropy ip_threshold user_threshold threshold).0
          ≡ allowed)
        ↔ ((10 * ip_fails < 7 * ip_threshold)
            × (10 * user_fails < 7 * user_threshold)
            × (is_below entropy threshold ≡ false)))
      × (((score_signals p ip_fails user_fails entropy ip_threshold user_threshold threshold).0
            ≡ soft_block)
          ↔ ((ip_threshold ≤ ip_fails)
              ⊎ ((user_threshold ≤ user_fails) ⊎ (is_below entropy (half_of threshold) ≡ true))))
      × ((score_signals p ip_fails user_fails entropy ip_threshold user_threshold threshold).0
          ≢ hard_block)
unfolding score_signals
score_signals-state p ip_fails user_fails entropy ip_threshold user_threshold threshold =
    let half = is_below_half entropy threshold in
    (
      (λ h. ground (arith, half), λ h. ground (arith, half)),
      (λ h. ground (arith, half), λ h. ground (arith, half)),
      λ h. ground (arith, half),
    )

-- More failures never lead to a milder state.
pub score_signals_mono :
    (p : Platform) (ip_fails ip_fails' user_fails user_fails' : ℕ) (entropy : Option Deviation)
    (ip_threshold user_threshold : ℕ) (threshold : Fraction)
    → ip_fails ≤ ip_fails'
    → user_fails ≤ user_fails'
    → rank (score_signals p ip_fails user_fails entropy ip_threshold user_threshold threshold).0
      ≤ rank (score_signals p ip_fails' user_fails' entropy ip_threshold user_threshold threshold).0
unfolding score_signals
score_signals_mono p ip_fails ip_fails' user_fails user_fails' entropy ip_threshold user_threshold
      threshold h k =
    ground (arith, is_below_half entropy threshold)
