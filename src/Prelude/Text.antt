-- ===== src/Prelude/Text.antt =====
-- Keys that the program builds by writing a text behind a fixed prefix.
use Prim.Native.Char.{Char, code}
use Prim.Native.String.{String, [], ◌∷◌, ◌++◌ as append}
use mathlib.Core.Path.{◌≡◌, ap}
use mathlib.Core.Logic.{◌≢◌, inl, inr}
use mathlib.Core.Bool.{false}
use mathlib.Core.Option.{Option, none, some}
use native.Mathlib.Omega.{arith}
use text.Mathlib.Text.{◌==◌}
use text.Mathlib.TextEquality.{eq_iff}
use text.Mathlib.TextLemmas.{
  cons-ne-nil, append_cancel_left, cons-append, head-eq_of_cons-eq, tail-eq_of_cons-eq,
}
use api_gateway_with_abuse_d.Prelude.Tests.{eqb, Bool-cases}

-- Two keys with one prefix are equal exactly when what follows the prefix is.
pub append-== : (p s t : String) → (append p s == append p t) ≡ (s == t)
append-== p s t = elim (Bool-cases (append p s == append p t)) [
  | inl same ↦
      ground
        (arith, eq_iff s t, append_cancel_left p s t ((eq_iff (append p s) (append p t)).0 same))
  | inr other ↦ elim (Bool-cases (s == t)) [
    | inl e ↦ ground (arith, eq_iff (append p s) (append p t), ap (append p) ((eq_iff s t).0 e))
    | inr e ↦ ground arith
  ]
]

pub ==-eq_false : (s t : String) → s ≢ t → (s == t) ≡ false
==-eq_false s t h = ground (arith, eq_iff s t)

pub ==_comm : (s t : String) → (s == t) ≡ (t == s)
==_comm s t = ground (arith, eq_iff s t, eq_iff t s)

char-ne : (c d : Char) → eqb (code c) (code d) ≡ false → c ≢ d
char-ne c d h e = ground (arith, ap code e)

-- Prefixes that differ in their first letter, or in their second, give different keys.
pub append-ne_of_head :
    (c d : Char) (p q s t : String)
    → eqb (code c) (code d) ≡ false
    → (append (c ∷ p) s == append (d ∷ q) t) ≡ false
append-ne_of_head c d p q s t h =
    ==-eq_false _ _ (simp cons-append (λ e. char-ne c d h (head-eq_of_cons-eq e)))

pub append-ne_of_second :
    (b c d : Char) (p q s t : String)
    → eqb (code c) (code d) ≡ false
    → (append (b ∷ c ∷ p) s == append (b ∷ d ∷ q) t) ≡ false
append-ne_of_second b c d p q s t h =
    ==-eq_false _ _
      (simp cons-append (λ e. char-ne c d h (head-eq_of_cons-eq (tail-eq_of_cons-eq e))))

-- A text behind a brace, and what is behind the first character.
abbrev pub braced : String → String
braced s = "{" ∷ s

abbrev pub behind_first : String → Option String
behind_first [] = none
behind_first (c ∷ s) = some s

pub braced-ne_empty : (s : String) → (braced s == "") ≡ false
braced-ne_empty s = ==-eq_false (braced s) "" (cons-ne-nil _ _)
