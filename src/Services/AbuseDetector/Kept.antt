-- ===== src/Services/AbuseDetector/Kept.antt =====
-- app/services/abuse_detector.py: the sorted set of a client after one more request at the same
-- distance.
use api_gateway_with_abuse_d.Prelude.{
  ℕ, suc, ◌+◌, ◌*◌, ◌<◌, ◌≤◌, ◌≡◌, refl, ◌∙◌, ap, Option, none, some, arith, inl, inr, Bool-cases,
  leb, lt→ltb, subst, str, if◌then◌else◌,
}
use api_gateway_with_abuse_d.Prelude.Int.{negsuc}
use api_gateway_with_abuse_d.Redis.{
  Cell, live, scored_of, cut_cell, non_empty, zadd_cell, expire_cell, remove_ranks, insert_scored,
}
use api_gateway_with_abuse_d.Redis.SortedSet.{
  IsSortedSet, scored_of-non_empty, non_empty-IsSortedSet,
}
use api_gateway_with_abuse_d.Services.AbuseDetector.Timing.{ticks}
use api_gateway_with_abuse_d.Services.AbuseDetector.Ticks.{
  entries, recorded_cell, insert_scored-tick, remove_ranks-few, remove_ranks-full,
}

-- A cell that holds `n` entries at a fixed distance, whose next one is due at `next`, until `until`.
pub record IsTicking (gap n next until : ℕ) (c : Option Cell) : Type 0 where
  pub start : ℕ
  pub ends : start + n * gap ≡ next
  pub typed : IsSortedSet c
  pub stored : (t : ℕ) → t < until → scored_of (live t c) ≡ entries (ticks start gap n)

pub none-IsTicking :
    (gap next until : ℕ) (c : Option Cell) → c ≡ none → IsTicking gap 0 next until c
unfolding ticks
none-IsTicking gap next until c missing = record {
  start = next;
  ends = omega arith;
  typed = rw missing tt;
  stored = λ t early. rw missing refl;
}

module _ (samples gap : ℕ) where
  -- How many of `n` entries are left after another one.
  abbrev pub kept : ℕ → ℕ
  kept n = if leb (suc n) samples then suc n else n

  left_over :
      (start n : ℕ)
      → n ≤ samples
      → (first : ℕ) × (first + kept n * gap ≡ start + suc n * gap)
        × (remove_ranks 0 (negsuc samples) (entries (ticks start gap (suc n)))
            ≡ entries (ticks first gap (kept n)))
  left_over start n few = elim (Bool-cases (leb (suc n) samples)) [
    | inl more ↦
        rw more (start, refl, remove_ranks-few start gap (suc n) samples (ground (arith, more)))
    | inr full ↦ rw full (
      start + gap,
      omega arith,
      subst
          (λ s.
            remove_ranks 0 (negsuc s) (entries (ticks start gap (suc n)))
            ≡ entries (ticks (start + gap) gap n))
          (ground (arith, full)) (remove_ranks-full start gap n),
    )
  ]

  abbrev pub recorded : ℕ → Option Cell → Option Cell
  recorded t c = expire_cell t 3600 (
      live t (cut_cell (remove_ranks 0 (negsuc samples)) (live t (zadd_cell t (str t) (live t c)))))

  next_end : (start n t : ℕ) → start + n * gap ≡ t → start + suc n * gap ≡ t + gap
  next_end start n t ends = omega arith

  pub recorded-IsTicking :
      (n t until : ℕ) (c : Option Cell)
      → 0 < gap
      → n ≤ samples
      → t < until
      → IsTicking gap n t until c
      → IsTicking gap (kept n) (t + gap) (t + 3600 * 1000) (recorded t c)
  recorded-IsTicking n t until c apart few soon ticking =
      let (first, ends, left) = left_over ticking.start n few in
      let here =
        recorded_cell (remove_ranks 0 (negsuc samples)) t (str t) t 3600 c ticking.typed
        ∙ ap (λ xs. non_empty (some (t + 3600 * 1000)) (remove_ranks 0 (negsuc samples) xs))
            (ap (insert_scored (record { member = str t; score = t })) (ticking.stored t soon)
              ∙ insert_scored-tick ticking.start gap n t apart ticking.ends)
        ∙ ap (non_empty (some (t + 3600 * 1000))) left in
      record {
        start = first;
        ends = ends ∙ next_end ticking.start n t ticking.ends;
        typed = rw here (non_empty-IsSortedSet (some (t + 3600 * 1000)) _);
        stored = λ t' early. rw here (
            rw
              (
                scored_of-non_empty t' (some (t + 3600 * 1000))
                    (entries (ticks first gap (kept n))),
                lt→ltb t' (t + 3600 * 1000) early,
              )
              refl);
      }
