-- ===== src/Text.antt =====
-- The methods of Python's `str` that the gateway calls, over code points.
use Prim.Native.Char.{Char, code}
use Prim.Native.String.{[], ◌∷◌}
use api_gateway_with_abuse_d.Prelude.{
  ℕ, ◌+◌, String, Bool, true, false, ◌&&◌, ◌||◌, List, leb, eqb, ◌==◌, if◌then◌else◌,
}

-- `s in {...}`
unfoldable pub is_one_of : String → List String → Bool
is_one_of s List.[] = false
is_one_of s (List.◌∷◌ x xs) = x == s || is_one_of s xs

-- `s.startswith(prefix)`
unfoldable pub has_prefix : String → String → Bool
has_prefix s [] = true
has_prefix [] (d ∷ p) = false
has_prefix (c ∷ s) (d ∷ p) = eqb (code c) (code d) && has_prefix s p

abbrev cons_head : Char → List String → List String
cons_head c List.[] = List.◌∷◌ (c ∷ []) List.[]
cons_head c (List.◌∷◌ w ws) = List.◌∷◌ (c ∷ w) ws

-- `s.split(" ")` for the test of a space, and the pieces of `s.split()` with the empty ones left in.
unfoldable pub split_by : (Char → Bool) → String → List String
split_by test [] = List.◌∷◌ "" List.[]
split_by test (c ∷ s) =
    let rest = split_by test s in if test c then List.◌∷◌ "" rest else cons_head c rest

abbrev pub is_blank : Char → Bool
is_blank c = eqb (code c) b' '

-- White space, as far as a header can hold it: the code points of Latin-1.
abbrev pub is_white : Char → Bool
is_white c =
    (leb 9 (code c) && leb (code c) 13)
    || (leb 28 (code c) && leb (code c) 32)
    || eqb (code c) 0x85
    || eqb (code c) 0xa0

unfoldable pub non_empty_words : List String → List String
non_empty_words List.[] = List.[]
non_empty_words (List.◌∷◌ w ws) =
    let rest = non_empty_words ws in if w == "" then rest else List.◌∷◌ w rest

-- `s.split()`
unfoldable pub split_words : String → List String
unfolding split_by non_empty_words
split_words s = non_empty_words (split_by is_white s)

-- `s.split(":")[0]`
unfoldable pub before_colon : String → String
before_colon [] = []
before_colon (c ∷ s) = let rest = before_colon s in if eqb (code c) b':' then [] else c ∷ rest

abbrev lower : ℕ → ℕ
lower c = if leb b'A' c && leb c b'Z' then c + 32 else c

-- `s.lower() == t` for a `t` of small ASCII letters.
unfoldable pub is_lowered : String → String → Bool
is_lowered [] [] = true
is_lowered [] (d ∷ t) = false
is_lowered (c ∷ s) [] = false
is_lowered (c ∷ s) (d ∷ t) = eqb (lower (code c)) (code d) && is_lowered s t
