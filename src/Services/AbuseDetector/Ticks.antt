-- ===== src/Services/AbuseDetector/Ticks.antt =====
-- app/services/abuse_detector.py: the sorted set of a client that requests at a fixed distance.
use api_gateway_with_abuse_d.Prelude.{
  ℕ, zero, suc, ◌+◌, ◌-◌, ◌*◌, ◌<◌, ◌≤◌, max, String, ◌≡◌, ◌≢◌, refl, ◌∙◌, ap, true, Option, none,
  some, List, [], ◌∷◌, ◌++◌, arith, inl, inr, Bool-cases, All, length, map, str, str_injective,
}
use api_gateway_with_abuse_d.Prelude.Int.{negsuc}
use api_gateway_with_abuse_d.Redis.{
  Cell, Value, Scored, scored, live, is_live, scored_of, cut_cell, non_empty, zadd_cell,
  expire_cell, remove_ranks, insert_scored, insert_sorted, add_scored,
}
use api_gateway_with_abuse_d.Redis.SortedSet.{IsScored, IsSortedSet, keep-is_other}
use api_gateway_with_abuse_d.Services.AbuseDetector.Timing.{ticks, length-ticks}

abbrev pub entry : ℕ → Scored
entry x = record { member = str x; score = x }

abbrev pub entries : List ℕ → List Scored
entries = map entry

added_value-set :
    (a : Scored) (d : Option ℕ) (v : Value)
    → IsScored v
    → add_scored a v
      ≡ scored (insert_scored a (scored_of (some (record { value = v; deadline = d }))))
added_value-set a d (scored xs) typed = refl
added_value-set a d _ typed = absurd typed

zadd_cell-set :
    (s : ℕ) (m : String) (t : ℕ) (c : Option Cell)
    → IsSortedSet c
    → (d : Option ℕ) × (zadd_cell s m (live t c)
        ≡ some (record {
          value = scored (insert_scored (record { member = m; score = s }) (scored_of (live t c)));
          deadline = d;
        }))
      × (is_live t d ≡ true)
unfolding insert_sorted
zadd_cell-set s m t none typed = (none, refl, refl)
zadd_cell-set s m t (some c) typed = elim (Bool-cases (is_live t c.deadline)) [
  | inl alive ↦ rw alive (
    c.deadline,
    ap (λ v. some (record { value = v; deadline = c.deadline }))
        (added_value-set (record { member = m; score = s }) c.deadline c.value typed),
    alive,
  )
  | inr dead ↦ rw dead (none, refl, refl)
]

renewed :
    (t secs : ℕ) (d : Option ℕ) (ys : List Scored)
    → is_live t d ≡ true
    → expire_cell t secs (live t (non_empty d ys)) ≡ non_empty (some (t + secs * 1000)) ys
renewed t secs d [] alive = refl
renewed t secs d (y ∷ ys) alive = rw alive refl

-- ZADD, a cut and EXPIRE, at one time.
pub recorded_cell :
    (f : List Scored → List Scored) (s : ℕ) (m : String) (t secs : ℕ) (c : Option Cell)
    → IsSortedSet c
    → expire_cell t secs (live t (cut_cell f (live t (zadd_cell s m (live t c)))))
      ≡ non_empty
          (some (t + secs * 1000))
          (f (insert_scored (record { member = m; score = s }) (scored_of (live t c))))
recorded_cell f s m t secs c typed =
    let (d, added, alive) = zadd_cell-set s m t c typed in
    rw added (rw alive (renewed t secs d _ alive))

members-differ :
    (t : ℕ) (xs : List ℕ) → All (λ x. x < t) xs → All (λ e. e.member ≢ str t) (entries xs)
members-differ t [] below = tt
members-differ t (x ∷ xs) (less, below) =
    (λ same. omega (arith, less, str_injective x t same), members-differ t xs below)

insert_sorted-last :
    (t : ℕ) (xs : List ℕ)
    → All (λ x. x < t) xs
    → insert_sorted (entry t) (entries xs) ≡ entries (xs ++ (t ∷ []))
unfolding insert_sorted
insert_sorted-last t [] below = refl
insert_sorted-last t (x ∷ xs) (less, below) = ground (arith, insert_sorted-last t xs below)

insert_scored-last :
    (t : ℕ) (xs : List ℕ)
    → All (λ x. x < t) xs
    → insert_scored (entry t) (entries xs) ≡ entries (xs ++ (t ∷ []))
insert_scored-last t xs below =
    ap (insert_sorted (entry t)) (keep-is_other (str t) (entries xs) (members-differ t xs below))
    ∙ insert_sorted-last t xs below

ticks-earlier :
    (start gap n t : ℕ) → 0 < gap → start + n * gap ≡ t → All (λ x. x < t) (ticks start gap n)
unfolding ticks
ticks-earlier start gap zero t apart ends = tt
ticks-earlier start gap (suc n) t apart ends =
    (omega arith, ticks-earlier (start + gap) gap n t apart (omega arith))

ticks-next :
    (start gap n t : ℕ)
    → start + n * gap ≡ t
    → ticks start gap n ++ (t ∷ []) ≡ ticks start gap (suc n)
unfolding ticks
ticks-next start gap zero t ends = ap (λ x. x ∷ []) (omega arith)
ticks-next start gap (suc n) t ends =
    ap (λ xs. start ∷ xs) (ticks-next (start + gap) gap n t (omega arith))

pub insert_scored-tick :
    (start gap n t : ℕ)
    → 0 < gap
    → start + n * gap ≡ t
    → insert_scored (entry t) (entries (ticks start gap n)) ≡ entries (ticks start gap (suc n))
insert_scored-tick start gap n t apart ends =
    insert_scored-last t (ticks start gap n) (ticks-earlier start gap n t apart ends)
    ∙ ap entries (ticks-next start gap n t ends)

length-entries : (xs : List ℕ) → length (entries xs) ≡ length xs
length-entries [] = refl
length-entries (x ∷ xs) = ap suc (length-entries xs)

pub scores-entries : (xs : List ℕ) → map (λ e. e.score) (entries xs) ≡ xs
scores-entries [] = refl
scores-entries (x ∷ xs) = ap (λ ys. x ∷ ys) (scores-entries xs)

none_too_many : (n samples : ℕ) → n ≤ samples → max 0 (n - samples) ≡ 0
none_too_many n samples few = omega arith

one_too_many : (n : ℕ) → max 0 (suc n - n) ≡ 1
one_too_many n = omega arith

pub remove_ranks-few :
    (start gap n samples : ℕ)
    → n ≤ samples
    → remove_ranks 0 (negsuc samples) (entries (ticks start gap n)) ≡ entries (ticks start gap n)
remove_ranks-few start gap n samples few =
    rw (length-entries, length-ticks, none_too_many n samples few) refl

pub remove_ranks-full :
    (start gap n : ℕ)
    → remove_ranks 0 (negsuc n) (entries (ticks start gap (suc n)))
      ≡ entries (ticks (start + gap) gap n)
unfolding ticks
remove_ranks-full start gap n =
    rw
      (ap (λ m. suc m - n)
        (length-entries (ticks (start + gap) gap n) ∙ length-ticks (start + gap) gap n))
      (rw (one_too_many n) refl)
