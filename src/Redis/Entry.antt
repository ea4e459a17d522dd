-- ===== src/Redis/Entry.antt =====
-- What a Redis key holds, and what each command does to it, as the Redis documentation states.
use Prim.Native.Nat.{Ordering}
use Prim.Native.String.{compare}
use api_gateway_with_abuse_d.Prelude.{
  ℕ, ◌+◌, ◌-◌, ◌*◌, max, String, Bool, true, false, not, ◌&&◌, ◌||◌, Option, none, some, List, [],
  ◌∷◌, ◌++◌, ltb, leb, eqb, ◌==◌, if◌then◌else◌, length, take, drop, keep, str, int,
}
use api_gateway_with_abuse_d.Prelude.Int.{ℤ, pos, negsuc, le_ℤ}

pub record Scored : Type 0 where
  pub member : String
  pub score : ℕ

pub data Value : Type 0 where
  text : String → Value
  members : List String → Value
  scored : List Scored → Value

pub record Cell : Type 0 where
  pub value : Value
  pub deadline : Option ℕ

abbrev pub is_live : ℕ → Option ℕ → Bool
is_live t none = true
is_live t (some d) = ltb t d

-- A key past its expiry is as good as missing.
abbrev pub live : ℕ → Option Cell → Option Cell
live t none = none
live t (some c) = if is_live t c.deadline then some c else none

abbrev pub is_some : Option Cell → Bool
is_some none = false
is_some (some c) = true

abbrev text_in : Value → Option String
text_in (text s) = some s
text_in _ = none

abbrev pub text_of : Option Cell → Option String
text_of none = none
text_of (some c) = text_in c.value

abbrev members_in : Value → List String
members_in (members ms) = ms
members_in _ = []

abbrev pub members_of : Option Cell → List String
members_of none = []
members_of (some c) = members_in c.value

abbrev scored_in : Value → List Scored
scored_in (scored xs) = xs
scored_in _ = []

abbrev pub scored_of : Option Cell → List Scored
scored_of none = []
scored_of (some c) = scored_in c.value

abbrev seconds_from : ℕ → Option ℕ → Option ℕ
seconds_from t none = none
seconds_from t (some secs) = some (t + secs * 1000)

abbrev pub set_cell : ℕ → String → Option ℕ → Option Cell
set_cell t v ex = some (record { value = text v; deadline = seconds_from t ex })

-- INCR of a text that is no number is refused, and leaves the key as it is.
abbrev pub next_text : Option ℕ → String → String
next_text none s = s
next_text (some n) s = str (n + 1)

abbrev pub next_value : Value → Value
next_value (text s) = text (next_text (int s) s)
next_value v = v

abbrev pub incr_cell : Option Cell → Option Cell
incr_cell none = some (record { value = text "1"; deadline = none })
incr_cell (some c) = some (record c { value = next_value c.value })

abbrev pub expire_cell : ℕ → ℕ → Option Cell → Option Cell
expire_cell t secs none = none
expire_cell t secs (some c) = some (record c { deadline = some (t + secs * 1000) })

unfoldable pub contains : String → List String → Bool
contains m [] = false
contains m (x ∷ xs) = x == m || contains m xs

unfoldable pub insert_member : String → List String → List String
unfolding contains
insert_member m ms = if contains m ms then ms else m ∷ ms

abbrev pub add_member : String → Value → Value
add_member m (members ms) = members (insert_member m ms)
add_member m v = v

abbrev pub sadd_cell : String → Option Cell → Option Cell
sadd_cell m none = some (record { value = members (m ∷ []); deadline = none })
sadd_cell m (some c) = some (record c { value = add_member m c.value })

-- A sorted set is ordered by score, and by member among equal scores.
abbrev pub comes_first : Scored → Scored → Bool
comes_first a b =
    ltb a.score b.score
    || (eqb a.score b.score && elim (compare a.member b.member) [ Ordering.lt ↦ true | _ ↦ false ])

unfoldable pub insert_sorted : Scored → List Scored → List Scored
insert_sorted a [] = a ∷ []
insert_sorted a (x ∷ xs) =
    let rest = insert_sorted a xs in if comes_first a x then a ∷ x ∷ xs else x ∷ rest

abbrev pub is_other : String → Scored → Bool
is_other m x = not (x.member == m)

-- ZADD gives a member that is there already its new score.
abbrev pub insert_scored : Scored → List Scored → List Scored
insert_scored a xs = insert_sorted a (keep (is_other a.member) xs)

abbrev pub add_scored : Scored → Value → Value
add_scored a (scored xs) = scored (insert_scored a xs)
add_scored a v = v

abbrev pub zadd_cell : ℕ → String → Option Cell → Option Cell
zadd_cell s m none =
    some (record { value = scored (record { member = m; score = s } ∷ []); deadline = none })
zadd_cell s m (some c) =
    some (record c { value = add_scored (record { member = m; score = s }) c.value })

-- A sorted set with no member left is deleted.
abbrev pub non_empty : Option ℕ → List Scored → Option Cell
non_empty d [] = none
non_empty d (x ∷ xs) = some (record { value = scored (x ∷ xs); deadline = d })

abbrev pub cut_value : (List Scored → List Scored) → Option ℕ → Value → Option Cell
cut_value f d (scored xs) = non_empty d (f xs)
cut_value f d v = some (record { value = v; deadline = d })

abbrev pub cut_cell : (List Scored → List Scored) → Option Cell → Option Cell
cut_cell f none = none
cut_cell f (some c) = cut_value f c.deadline c.value

abbrev pub filter_cell : (Scored → Bool) → Option Cell → Option Cell
filter_cell p = cut_cell (keep p)

abbrev pub outside : ℕ → ℤ → Scored → Bool
outside lo hi x = not (leb lo x.score && le_ℤ x.score hi)

-- The rank behind the last that is removed; a negative index counts from the highest score.
abbrev rank_end : ℕ → ℤ → ℕ
rank_end len (pos n) = n + 1
rank_end len (negsuc n) = len - n

abbrev pub remove_ranks : ℕ → ℤ → List Scored → List Scored
remove_ranks start stop xs = take start xs ++ drop (max start (rank_end (length xs) stop)) xs
