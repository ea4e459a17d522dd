-- ===== src/Redis/Members.antt =====
-- Sets: what SADD makes of a key.
use api_gateway_with_abuse_d.Prelude.{
  ℕ, String, ◌≡◌, refl, true, Option, none, some, List, eq_refl, Bool-cases, inl, inr,
}
use api_gateway_with_abuse_d.Redis.{
  Cell, members, live, is_live, members_of, sadd_cell, insert_member, contains,
}

-- A key that holds a set, if it holds anything.
unfoldable pub IsMembers : Option Cell → Type 0
IsMembers none = Unit {0}
IsMembers (some c) = (ms : List String) × (c.value ≡ members ms)

contains-insert_member : (m : String) (ms : List String) → contains m (insert_member m ms) ≡ true
unfolding insert_member contains
contains-insert_member m ms = elim (Bool-cases (contains m ms)) [
  | inl there ↦ rw there there
  | inr absent ↦ rw (absent, eq_refl) refl
]

pub members_of-sadd :
    (m : String) (t : ℕ) (cell : Option Cell)
    → IsMembers (live t cell)
    → contains m (members_of (live t (sadd_cell m (live t cell)))) ≡ true
unfolding IsMembers contains
members_of-sadd m t none set = rw eq_refl refl
members_of-sadd m t (some c) set = elim (Bool-cases (is_live t c.deadline)) [
  | inl alive ↦
      let (ms, holds) = rw alive at set in rw (alive, alive, holds) (contains-insert_member m ms)
  | inr dead ↦ rw (dead, eq_refl) refl
]
