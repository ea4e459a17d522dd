-- ===== src/App/Size.antt =====
-- How many entries a sorted set holds after each command of the rate limiter.
use api_gateway_with_abuse_d.Prelude.{
  ℕ, suc, ◌≤◌, String, ◌≡◌, refl, Bool, Option, none, some, List, [], ◌∷◌, length, keep, arith,
  Bool-cases, inl, inr,
}
use api_gateway_with_abuse_d.Redis.{
  Cell, Value, Scored, text, members, scored, live, is_live, scored_of, zadd_cell, expire_cell,
  cut_value, non_empty, filter_cell, insert_sorted, is_other, add_scored,
}

-- How many entries a key holds.
abbrev pub size : Option Cell → ℕ
size cell = length (scored_of cell)

pub size-live : (t : ℕ) (cell : Option Cell) → size (live t cell) ≤ size cell
size-live t none = omega arith
size-live t (some c) = elim (Bool-cases (is_live t c.deadline)) [
  | inl e ↦ rw e (omega arith)
  | inr e ↦ rw e (omega arith)
]

length-keep-le : (q : Scored → Bool) (xs : List Scored) → length (keep q xs) ≤ length xs
length-keep-le q [] = omega arith
length-keep-le q (x ∷ xs) = ground (arith, length-keep-le q xs)

length-insert_sorted :
    (a : Scored) (xs : List Scored) → length (insert_sorted a xs) ≡ suc (length xs)
unfolding insert_sorted
length-insert_sorted a [] = refl
length-insert_sorted a (x ∷ xs) = ground (arith, length-insert_sorted a xs)

size-non_empty : (d : Option ℕ) (xs : List Scored) → size (non_empty d xs) ≡ length xs
size-non_empty d [] = refl
size-non_empty d (x ∷ xs) = refl

size-cut_value :
    (q : Scored → Bool) (v : Value) (d : Option ℕ)
    → size (cut_value (keep q) d v) ≤ size (some (record { value = v; deadline = d }))
size-cut_value q (scored xs) d = rw (size-non_empty d (keep q xs)) (length-keep-le q xs)
size-cut_value q (text s) d = omega arith
size-cut_value q (members ms) d = omega arith

pub size-filter_cell :
    (q : Scored → Bool) (cell : Option Cell) → size (filter_cell q cell) ≤ size cell
size-filter_cell q none = omega arith
size-filter_cell q (some c) = size-cut_value q c.value c.deadline

size-add_scored :
    (a : Scored) (v : Value) (d : Option ℕ)
    → size (some (record { value = add_scored a v; deadline = d }))
      ≤ suc (size (some (record { value = v; deadline = d })))
size-add_scored a (scored xs) d = omega (
  arith,
  length-insert_sorted a (keep (is_other a.member) xs),
  length-keep-le (is_other a.member) xs,
)
size-add_scored a (text s) d = omega arith
size-add_scored a (members ms) d = omega arith

pub size-zadd_cell :
    (s : ℕ) (m : String) (cell : Option Cell) → size (zadd_cell s m cell) ≤ suc (size cell)
size-zadd_cell s m none = omega arith
size-zadd_cell s m (some c) = size-add_scored _ c.value c.deadline

pub size-expire_cell :
    (t secs : ℕ) (cell : Option Cell) → size (expire_cell t secs cell) ≡ size cell
size-expire_cell t secs none = refl
size-expire_cell t secs (some c) = refl
