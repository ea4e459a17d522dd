-- ===== src/App/Past.antt =====
-- The entries of a sorted set that were all made by some time, after each command of the rate
-- limiter.
use api_gateway_with_abuse_d.Prelude.{
  ℕ, ◌≤◌, String, Bool, Option, none, some, List, [], ◌∷◌, All, All-keep, keep, arith, Bool-cases,
  inl, inr,
}
use api_gateway_with_abuse_d.Redis.{
  Cell, Value, Scored, text, members, scored, live, is_live, scored_of, zadd_cell, expire_cell,
  cut_value, non_empty, filter_cell, is_other, add_scored,
}
use api_gateway_with_abuse_d.Redis.SortedSet.{All-insert_sorted}

-- Every entry was made by a time.
abbrev pub IsPast : ℕ → Option Cell → Type 0
IsPast now cell = All (λ (e : Scored). e.score ≤ now) (scored_of cell)

pub live-IsPast : (now t : ℕ) (cell : Option Cell) → IsPast now cell → IsPast now (live t cell)
live-IsPast now t none h = tt
live-IsPast now t (some c) h = elim (Bool-cases (is_live t c.deadline)) [
  | inl e ↦ rw e h
  | inr e ↦ rw e tt
]

pub All-later :
    (now now' : ℕ) (xs : List Scored)
    → now ≤ now'
    → All (λ e. e.score ≤ now) xs
    → All (λ e. e.score ≤ now') xs
All-later now now' [] le h = tt
All-later now now' (x ∷ xs) le (h, hs) = (omega arith, All-later now now' xs le hs)

non_empty-IsPast :
    (now : ℕ) (d : Option ℕ) (xs : List Scored)
    → All (λ e. e.score ≤ now) xs
    → IsPast now (non_empty d xs)
non_empty-IsPast now d [] h = tt
non_empty-IsPast now d (x ∷ xs) h = h

cut_value-IsPast :
    (now : ℕ) (q : Scored → Bool) (v : Value) (d : Option ℕ)
    → IsPast now (some (record { value = v; deadline = d }))
    → IsPast now (cut_value (keep q) d v)
cut_value-IsPast now q (scored xs) d h =
    non_empty-IsPast now d (keep q xs) (All-keep (λ e. e.score ≤ now) q xs h)
cut_value-IsPast now q (text s) d h = tt
cut_value-IsPast now q (members ms) d h = tt

pub filter_cell-IsPast :
    (now : ℕ) (q : Scored → Bool) (cell : Option Cell)
    → IsPast now cell
    → IsPast now (filter_cell q cell)
filter_cell-IsPast now q none h = tt
filter_cell-IsPast now q (some c) h = cut_value-IsPast now q c.value c.deadline h

add_scored-IsPast :
    (now s : ℕ) (m : String) (v : Value) (d : Option ℕ)
    → s ≤ now
    → IsPast now (some (record { value = v; deadline = d }))
    → IsPast now
        (some (record { value = add_scored (record { member = m; score = s }) v; deadline = d }))
add_scored-IsPast now s m (scored xs) d le h =
    All-insert_sorted (λ e. e.score ≤ now) (record { member = m; score = s }) (keep (is_other m) xs)
      le (All-keep (λ e. e.score ≤ now) (is_other m) xs h)
add_scored-IsPast now s m (text x) d le h = tt
add_scored-IsPast now s m (members ms) d le h = tt

pub zadd_cell-IsPast :
    (now s : ℕ) (m : String) (cell : Option Cell)
    → s ≤ now
    → IsPast now cell
    → IsPast now (zadd_cell s m cell)
zadd_cell-IsPast now s m none le h = (le, tt)
zadd_cell-IsPast now s m (some c) le h = add_scored-IsPast now s m c.value c.deadline le h

pub expire_cell-IsPast :
    (now t secs : ℕ) (cell : Option Cell) → IsPast now cell → IsPast now (expire_cell t secs cell)
expire_cell-IsPast now t secs none h = tt
expire_cell-IsPast now t secs (some c) h = h
