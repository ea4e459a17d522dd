-- ===== src/Services/AbuseDetector/Timing.antt =====
-- app/services/abuse_detector.py: the spread of the gaps between requests.
use native.Mathlib.Nat.{mul-mul-mul_comm, mul_assoc, sub_self}
use api_gateway_with_abuse_d.Prelude.{
  ℕ, zero, suc, ◌+◌, ◌-◌, ◌*◌, ◌<◌, ◌≡◌, refl, sym, ap, ap₂, true, some, List, [], ◌∷◌, arith, inr,
  length, map, lt→ltb, subst,
}
use api_gateway_with_abuse_d.Platform.{Platform, Deviation}
use api_gateway_with_abuse_d.Config.{Fraction, half_of, below}
use api_gateway_with_abuse_d.Services.GraduatedResponse.{soft_block, score_signals}
use api_gateway_with_abuse_d.Services.GraduatedResponse.Score.{score_signals-state}
use api_gateway_with_abuse_d.Services.AbuseDetector.{gaps_of, sum, stdev, entropy_of}

-- Requests of one client at a fixed distance.
unfoldable pub ticks : ℕ → ℕ → ℕ → List ℕ
ticks start gap zero = []
ticks start gap (suc n) = start ∷ ticks (start + gap) gap n

unfoldable copies : ℕ → ℕ → List ℕ
copies x zero = []
copies x (suc n) = x ∷ copies x n

next_gap : (start gap : ℕ) → start + gap - start ≡ gap
next_gap start gap = omega arith

pub length-ticks : (start gap n : ℕ) → length (ticks start gap n) ≡ n
unfolding ticks
length-ticks start gap zero = refl
length-ticks start gap (suc n) = ap suc (length-ticks (start + gap) gap n)

gaps_of-ticks : (start gap n : ℕ) → gaps_of (ticks start gap (suc n)) ≡ copies gap n
unfolding gaps_of ticks copies
gaps_of-ticks start gap zero = refl
gaps_of-ticks start gap (suc n) = ap₂ ◌∷◌ (next_gap start gap) (gaps_of-ticks (start + gap) gap n)

more_copies : (n x : ℕ) → x + n * x ≡ suc n * x
more_copies n x = omega arith

sum-copies : (x n : ℕ) → sum (copies x n) ≡ n * x
unfolding sum copies
sum-copies x zero = omega arith
sum-copies x (suc n) = rw (sum-copies x n) (more_copies n x)

map-copies : (f : ℕ → ℕ) (x n : ℕ) → map f (copies x n) ≡ copies (f x) n
unfolding copies
map-copies f x zero = refl
map-copies f x (suc n) = ap (λ xs. f x ∷ xs) (map-copies f x n)

length-copies : (x n : ℕ) → length (copies x n) ≡ n
unfolding copies
length-copies x zero = refl
length-copies x (suc n) = ap suc (length-copies x n)

nothing_left : (n x : ℕ) → n * (n * (x * x)) - n * x * (n * x) ≡ 0
nothing_left n x =
    rw (mul-mul-mul_comm n x n x, sym (mul_assoc n n (x * x))) (sub_self (n * n * (x * x)))

squares-copies : (x n : ℕ) → (stdev (copies x n)).squares ≡ 0
unfolding stdev
squares-copies x n =
    rw (length-copies x n, map-copies (λ y. y * y) x n, sum-copies x n, sum-copies (x * x) n)
      (nothing_left n x)

positive : (a b : ℕ) → 0 < a → 0 < b → 0 < a * b
positive zero b h k = elim h [ ]
positive (suc a) b h k = omega arith

no_copies : (n : ℕ) → 0 ≡ 0 * n
no_copies n = omega arith

over_positive : (n : ℕ) → 0 < suc (suc n) * (suc (suc n) - 1)
over_positive n = positive (suc (suc n)) (suc (suc n) - 1) (omega arith) (omega arith)

over-copies : (x n : ℕ) → 0 < (stdev (copies x (suc (suc n)))).over
unfolding stdev
over-copies x n = rw (length-copies x (suc (suc n))) (over_positive n)

below-zero :
    (d : Deviation) (r : Fraction) → d.squares ≡ 0 → 0 < d.over → 0 < r.num → below d r ≡ true
below-zero d r none_left more fraction = lt→ltb _ _ (
    rw none_left (
      subst (λ z. z < r.num * r.num * d.over) (no_copies (r.den * r.den))
        (positive (r.num * r.num) d.over (positive r.num r.num fraction fraction) more)))

-- The gaps of three requests or more at a fixed distance deviate by nothing.
entropy_of-ticks :
    (start gap n : ℕ)
    → entropy_of (ticks start gap (suc (suc (suc n)))) ≡ some (stdev (copies gap (suc (suc n))))
unfolding entropy_of
entropy_of-ticks start gap n =
    simp
      (
        length-ticks start gap (suc (suc (suc n))),
        gaps_of-ticks start gap (suc (suc n)),
        length-copies gap (suc (suc n)),
      )
      (ground arith)

-- Three scores or more at a fixed distance make the verdict SOFT_BLOCK, if the threshold of the
-- deviation is not zero.
pub ticks-soft_block :
    (p : Platform) (start gap n ip_fails user_fails ip_threshold user_threshold : ℕ)
    (threshold : Fraction)
    → 0 < threshold.num
    → (score_signals p ip_fails user_fails
        (entropy_of (ticks start gap (suc (suc (suc n)))))
        ip_threshold
        user_threshold
        threshold).0
      ≡ soft_block
ticks-soft_block p start gap n ip_fails user_fails ip_threshold user_threshold threshold fraction =
    let d = stdev (copies gap (suc (suc n))) in
    (score_signals-state p ip_fails user_fails (entropy_of (ticks start gap (suc (suc (suc n)))))
        ip_threshold user_threshold threshold).1.1
      (inr (
        inr (
          rw (entropy_of-ticks start gap n) (
            below-zero d (half_of threshold) (squares-copies gap (suc (suc n))) (over-copies gap n)
              fraction))))
