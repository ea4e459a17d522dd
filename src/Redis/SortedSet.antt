-- ===== src/Redis/SortedSet.antt =====
-- Sorted sets at a key: what the commands of the gateway do to their entries.
use api_gateway_with_abuse_d.Prelude.{
  ℕ, ◌+◌, ◌*◌, ◌≤◌, String, ◌≡◌, refl, ◌≢◌, Bool, true, false, Option, none, some, List, [], ◌∷◌,
  eq_iff, arith, ltb, if◌then◌else◌, keep, count, All, Bool-cases, inl, inr, sym,
}
use api_gateway_with_abuse_d.Redis.{
  Cell, Value, scored, Scored, live, scored_of, zadd_cell, expire_cell, insert_sorted,
  insert_scored, is_other, cut_cell, non_empty, cut_value, add_scored, is_live, comes_first,
}

-- The key holds a sorted set, or nothing.
abbrev pub IsScored : Value → Type 0
IsScored (scored xs) = Unit
IsScored _ = ⊥

abbrev pub IsSortedSet : Option Cell → Type 0
IsSortedSet none = Unit
IsSortedSet (some c) = IsScored c.value

pub non_empty-IsSortedSet : (d : Option ℕ) (xs : List Scored) → IsSortedSet (non_empty d xs)
non_empty-IsSortedSet d [] = tt
non_empty-IsSortedSet d (x ∷ xs) = tt

cut_value-IsSortedSet :
    (f : List Scored → List Scored) (d : Option ℕ) (v : Value)
    → IsScored v
    → IsSortedSet (cut_value f d v)
cut_value-IsSortedSet f d (scored xs) h = non_empty-IsSortedSet d (f xs)
cut_value-IsSortedSet f d _ h = absurd h

pub cut_cell-IsSortedSet :
    (f : List Scored → List Scored) (t : ℕ) (c : Option Cell)
    → IsSortedSet c
    → IsSortedSet (cut_cell f (live t c))
cut_cell-IsSortedSet f t none h = tt
cut_cell-IsSortedSet f t (some c) h = elim (Bool-cases (is_live t c.deadline)) [
  | inl e ↦ rw e (cut_value-IsSortedSet f c.deadline c.value h)
  | inr e ↦ rw e tt
]

pub scored_of-non_empty :
    (t : ℕ) (d : Option ℕ) (xs : List Scored)
    → scored_of (live t (non_empty d xs)) ≡ (if is_live t d then xs else [])
scored_of-non_empty t d [] = ground arith
scored_of-non_empty t d (x ∷ xs) = ground arith

is_live_later : (t t' : ℕ) (d : Option ℕ) → t ≤ t' → is_live t d ≡ false → is_live t' d ≡ false
is_live_later t t' none h e = e
is_live_later t t' (some x) h e = ground arith

scored_of-cut_value :
    (f : List Scored → List Scored) (t : ℕ) (d : Option ℕ) (v : Value)
    → f [] ≡ []
    → IsScored v
    → scored_of (live t (cut_value f d v))
      ≡ f (scored_of (live t (some (record { value = v; deadline = d }))))
scored_of-cut_value f t d (scored xs) h k = ground (arith, scored_of-non_empty t d (f xs))
scored_of-cut_value f t d _ h k = absurd k

pub scored_of-cut_cell :
    (f : List Scored → List Scored) (t t' : ℕ) (c : Option Cell)
    → f [] ≡ []
    → t ≤ t'
    → IsSortedSet c
    → scored_of (live t' (cut_cell f (live t c))) ≡ f (scored_of (live t' c))
scored_of-cut_cell f t t' none h le k = sym h
scored_of-cut_cell f t t' (some c) h le k = elim (Bool-cases (is_live t c.deadline)) [
  | inl e ↦ rw e (scored_of-cut_value f t' c.deadline c.value h k)
  | inr e ↦ rw (e, is_live_later t t' c.deadline le e) (sym h)
]

added_value :
    (a : Scored) (t secs t' : ℕ) (d : Option ℕ) (v : Value)
    → IsScored v
    → is_live t d ≡ true
    → scored_of (
        live t'
          (expire_cell t secs (live t (some (record { value = add_scored a v; deadline = d })))))
      ≡ (if ltb t' (t + secs * 1000)
          then insert_scored a (scored_of (some (record { value = v; deadline = d })))
          else [])
added_value a t secs t' d (scored xs) h e = rw e (ground arith)
added_value a t secs t' d _ h e = absurd h

pub scored_of-added :
    (s : ℕ) (m : String) (t secs t' : ℕ) (c : Option Cell)
    → IsSortedSet c
    → scored_of (live t' (expire_cell t secs (live t (zadd_cell s m (live t c))))) ≡ (
        if ltb t' (t + secs * 1000)
        then insert_scored (record { member = m; score = s }) (scored_of (live t c))
        else [])
scored_of-added s m t secs t' none k = unfold insert_sorted in ground arith
scored_of-added s m t secs t' (some c) k = elim (Bool-cases (is_live t c.deadline)) [
  | inl e ↦ rw e (added_value (record { member = m; score = s }) t secs t' c.deadline c.value k e)
  | inr e ↦ rw e (unfold insert_sorted in ground arith)
]

added_value-IsSortedSet :
    (a : Scored) (t secs : ℕ) (d : Option ℕ) (v : Value)
    → IsScored v
    → IsSortedSet
        (expire_cell t secs (live t (some (record { value = add_scored a v; deadline = d }))))
added_value-IsSortedSet a t secs d (scored xs) h = elim (Bool-cases (is_live t d)) [
  | inl e ↦ rw e tt
  | inr e ↦ rw e tt
]
added_value-IsSortedSet a t secs d _ h = absurd h

pub added-IsSortedSet :
    (s : ℕ) (m : String) (t secs : ℕ) (c : Option Cell)
    → IsSortedSet c
    → IsSortedSet (expire_cell t secs (live t (zadd_cell s m (live t c))))
added-IsSortedSet s m t secs none k = tt
added-IsSortedSet s m t secs (some c) k = elim (Bool-cases (is_live t c.deadline)) [
  | inl e ↦
      rw e (added_value-IsSortedSet (record { member = m; score = s }) t secs c.deadline c.value k)
  | inr e ↦ rw e tt
]

pub count-insert_sorted :
    (q : Scored → Bool) (a : Scored) (xs : List Scored)
    → count q (insert_sorted a xs) ≡ (if q a then 1 else 0) + count q xs
unfolding insert_sorted
count-insert_sorted q a [] = refl
count-insert_sorted q a (x ∷ xs) = ground (arith, count-insert_sorted q a xs)

pub All-insert_sorted {ℓ} :
    (P : Scored → Type ℓ) (a : Scored) (xs : List Scored)
    → P a
    → All P xs
    → All P (insert_sorted a xs)
unfolding insert_sorted
All-insert_sorted P a [] h k = (h, tt)
All-insert_sorted P a (x ∷ xs) h k = elim (Bool-cases (comes_first a x)) [
  | inl e ↦ rw e (h, k)
  | inr e ↦ rw e (k.0, All-insert_sorted P a xs h k.1)
]

-- A member that is not there is only inserted.
pub keep-is_other :
    (m : String) (xs : List Scored) → All (λ x. x.member ≢ m) xs → keep (is_other m) xs ≡ xs
keep-is_other m [] h = refl
keep-is_other m (x ∷ xs) h = ground (arith, keep-is_other m xs h.1, eq_iff x.member m, h.0)
