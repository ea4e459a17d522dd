-- ===== src/Redis/Memory.antt =====
-- A Redis server as the list of the writes to its keys, the last one first: the laws can hold.
use api_gateway_with_abuse_d.Prelude.{
  ℕ, String, ◌≡◌, refl, Bool, true, false, ◌&&◌, ◌||◌, Option, none, List, [], ◌∷◌, ◌==◌,
  starts_with, if◌then◌else◌, keep, Bool-cases, inl, inr, eq_iff, eq_refl, ◌∙◌, arith, subst,
}
use api_gateway_with_abuse_d.Redis.Entry.{Cell, live, is_some, contains, insert_member}

abbrev pub Store : Type 0
Store = List (String × Option Cell)

abbrev pub lookup : String → Store → Option Cell
lookup j [] = none
lookup j ((k, c) ∷ db) = if k == j then c else lookup j db

abbrev pub write : String → Option Cell → Store → Store
write k c db = (k, c) ∷ db

abbrev pub empty : Store
empty = []

-- Each key once.
abbrev pub keys_of : Store → List String
keys_of [] = []
keys_of ((k, c) ∷ db) = insert_member k (keys_of db)

abbrev pub is_visited : ℕ → String → Store → String → Bool
is_visited t prefix db k = starts_with k prefix && is_some (live t (lookup k db))

abbrev pub matching : ℕ → String → Store → List String
matching t prefix db = keep (is_visited t prefix db) (keys_of db)

contains-keep :
    (test : String → Bool) (k : String) (xs : List String)
    → contains k (keep test xs) ≡ (test k && contains k xs)
unfolding contains
contains-keep test k [] = ground arith
contains-keep test k (x ∷ xs) = elim (Bool-cases (x == k)) [
  | inl own ↦
      subst (λ y. contains y (keep test (x ∷ xs)) ≡ (test y && contains y (x ∷ xs)))
        ((eq_iff x k).0 own)
        (elim (Bool-cases (test x)) [
          | inl visited ↦ rw (visited, eq_refl x) refl
          | inr passed ↦ rw passed (rw (contains-keep test x xs, passed) refl)
        ])
  | inr other ↦ elim (Bool-cases (test x)) [
    | inl visited ↦ rw visited (simp other (contains-keep test k xs))
    | inr passed ↦ rw passed (simp other (contains-keep test k xs))
  ]
]

contains-insert :
    (k m : String) (ms : List String) → contains k (insert_member m ms) ≡ (m == k || contains k ms)
unfolding contains insert_member
contains-insert k m ms = elim (Bool-cases (contains m ms)) [
  | inl there ↦ rw there (elim (Bool-cases (m == k)) [
    | inl own ↦ rw own (subst (λ y. contains y ms ≡ true) ((eq_iff m k).0 own) there)
    | inr other ↦ rw other refl
  ])
  | inr absent ↦ rw absent refl
]

contains-keys_of :
    (t : ℕ) (k : String) (db : Store)
    → is_some (live t (lookup k db)) ≡ true
    → contains k (keys_of db) ≡ true
unfolding contains
contains-keys_of t k [] h = h
contains-keys_of t k ((j, c) ∷ db) h =
    contains-insert k j (keys_of db) ∙ elim (Bool-cases (j == k)) [
      | inl own ↦ rw own refl
      | inr other ↦ rw other (contains-keys_of t k db (rw other at h))
    ]

and_true : (a b c : Bool) → (b ≡ true → c ≡ true) → ((a && b) && c) ≡ (a && b)
and_true true true c h = h refl
and_true true false c h = refl
and_true false b c h = refl

pub contains-matching :
    (t : ℕ) (prefix : String) (db : Store) (k : String)
    → contains k (matching t prefix db) ≡ (starts_with k prefix && is_some (live t (lookup k db)))
contains-matching t prefix db k =
    contains-keep (is_visited t prefix db) k (keys_of db)
    ∙ and_true (starts_with k prefix) _ _ (contains-keys_of t k db)
