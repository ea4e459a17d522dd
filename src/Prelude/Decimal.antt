-- ===== src/Prelude/Decimal.antt =====
-- Python's `str` and `int` between numbers and decimal texts.
use Prim.Native.Nat.{ℕ, zero, suc, ◌+◌, ◌-◌, ◌*◌, ◌/◌, ◌%◌, ◌<◌}
use Prim.Native.Char.{Char, code}
use Prim.Native.String.{String, [], ◌∷◌}
use mathlib.Core.Path.{◌≡◌, refl, ◌∙◌}
use mathlib.Core.Logic.{◌≢◌, inl, inr}
use mathlib.Core.Bool.{false, ◌&&◌}
use mathlib.Core.Option.{Option, none, some}
use text.Mathlib.TextLemmas.{cons-ne-nil}
use native.Mathlib.Omega.{arith}
use api_gateway_with_abuse_d.Prelude.Tests.{leb, eqb, if◌then◌else◌, Bool-cases}
use api_gateway_with_abuse_d.Prelude.Text.{==-eq_false}
use text.Mathlib.Text.{◌==◌}

digit : ℕ → Char
digit zero = "0"
digit (suc zero) = "1"
digit (suc (suc zero)) = "2"
digit (suc (suc (suc zero))) = "3"
digit (suc (suc (suc (suc zero)))) = "4"
digit (suc (suc (suc (suc (suc zero))))) = "5"
digit (suc (suc (suc (suc (suc (suc zero)))))) = "6"
digit (suc (suc (suc (suc (suc (suc (suc zero))))))) = "7"
digit (suc (suc (suc (suc (suc (suc (suc (suc zero)))))))) = "8"
digit _ = "9"

-- The digits of `n` in front of `out`; a fuel above `n` is enough.
digits : ℕ → ℕ → String → String
digits zero n out = out
digits (suc fuel) n out =
    let last = digit (n % 10) in
    let more = digits fuel (n / 10) (last ∷ out) in if eqb (n / 10) 0 then last ∷ out else more

-- `str(n)`.
unfoldable pub str : ℕ → String
unfolding digits digit
str n = digits (suc n) n []

scan : String → ℕ → Option ℕ
scan [] n = some n
scan (c ∷ s) n =
    if leb b'0' (code c) && leb (code c) b'9' then scan s (n * 10 + (code c - b'0')) else none

-- `int(s)` of a plain decimal text; on any other text it is `none`.
unfoldable pub int : String → Option ℕ
unfolding scan
int [] = none
int (c ∷ s) = scan (c ∷ s) 0

code-digit : (d : ℕ) → d < 10 → code (digit d) ≡ b'0' + d
unfolding digit
code-digit zero h = refl
code-digit (suc zero) h = refl
code-digit (suc (suc zero)) h = refl
code-digit (suc (suc (suc zero))) h = refl
code-digit (suc (suc (suc (suc zero)))) h = refl
code-digit (suc (suc (suc (suc (suc zero))))) h = refl
code-digit (suc (suc (suc (suc (suc (suc zero)))))) h = refl
code-digit (suc (suc (suc (suc (suc (suc (suc zero))))))) h = refl
code-digit (suc (suc (suc (suc (suc (suc (suc (suc zero)))))))) h = refl
code-digit (suc (suc (suc (suc (suc (suc (suc (suc (suc n))))))))) h = omega arith

scan-digit : (d n : ℕ) (out : String) → d < 10 → scan (digit d ∷ out) n ≡ scan out (n * 10 + d)
unfolding scan
scan-digit d n out h = ground (arith, code-digit d h)

scan-digits : (fuel n : ℕ) (out : String) → n < fuel → scan (digits fuel n out) 0 ≡ scan out n
unfolding digits
scan-digits zero n out h = elim h [ ]
scan-digits (suc fuel) n out h = ground (
  arith,
  scan-digit (n % 10) 0 out,
  scan-digit (n % 10) (n / 10) out,
  scan-digits fuel (n / 10) (digit (n % 10) ∷ out),
)

digits-ne-nil : (fuel n : ℕ) (out : String) → out ≢ [] → digits fuel n out ≢ []
unfolding digits
digits-ne-nil zero n out h = h
digits-ne-nil (suc fuel) n out h = elim (Bool-cases (eqb (n / 10) 0)) [
  | inl done ↦ rw done (cons-ne-nil _ _)
  | inr more ↦ rw more (digits-ne-nil fuel (n / 10) _ (cons-ne-nil _ _))
]

int-scan : (s : String) → s ≢ [] → int s ≡ scan s 0
unfolding int
int-scan [] h = absurd (h refl)
int-scan (c ∷ s) _ = refl

str-ne-nil : (n : ℕ) → str n ≢ []
unfolding str
str-ne-nil n = elim (Bool-cases (eqb (n / 10) 0)) [
  | inl done ↦ rw done (cons-ne-nil _ _)
  | inr more ↦ rw more (digits-ne-nil n (n / 10) _ (cons-ne-nil _ _))
]

-- A number is read back from its print.
pub int-str : (n : ℕ) → int (str n) ≡ some n
int-str n =
    int-scan (str n) (str-ne-nil n) ∙ unfold str scan in scan-digits (suc n) n [] (omega arith)

pub str_injective : (m n : ℕ) → str m ≡ str n → m ≡ n
str_injective m n e = cc (int-str m, int-str n)

pub str-one : str 1 ≡ "1"
unfolding str
str-one = refl

pub str-ne_empty : (n : ℕ) → (str n == "") ≡ false
str-ne_empty n = ==-eq_false (str n) "" (str-ne-nil n)
