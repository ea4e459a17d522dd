-- ===== src/Prelude/Int.antt =====
-- Signed integers over the native numbers, under the library's names (its ℤ stands on the unary ℕ).
use Prim.Native.Nat.{ℕ, ◌-◌}
use mathlib.Core.Bool.{Bool, false}
use api_gateway_with_abuse_d.Prelude.Tests.{leb, if◌then◌else◌}

-- `negsuc n` is -(n + 1).
pub data ℤ : Type 0 where
  pos : ℕ → ℤ
  negsuc : ℕ → ℤ

-- a - b, as an integer.
abbrev pub sub_ℕ : ℕ → ℕ → ℤ
sub_ℕ a b = if leb b a then pos (a - b) else negsuc (b - a - 1)

-- Whether a number is at most an integer.
abbrev pub le_ℤ : ℕ → ℤ → Bool
le_ℤ n (pos m) = leb n m
le_ℤ n (negsuc m) = false
