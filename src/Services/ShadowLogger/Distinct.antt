-- ===== src/Services/ShadowLogger/Distinct.antt =====
-- app/services/shadow_logger.py: two lists of the same keys, without repetitions, weigh the same.
use mathlib.Core.Bool.{false≢true}
use api_gateway_with_abuse_d.Prelude.{
  ℕ, ◌+◌, ◌≤◌, String, true, false, ◌≡◌, refl, sym, ◌∙◌, ap, subst, List, [], ◌∷◌, ◌==◌,
  if◌then◌else◌, eq_iff, eq_refl, Bool-cases, inl, inr, arith,
}
use api_gateway_with_abuse_d.Redis.{contains}

-- No key occurs twice.
unfoldable pub IsDistinct : List String → Type 0
IsDistinct [] = Unit {0}
IsDistinct (x ∷ xs) = (contains x xs ≡ false) × IsDistinct xs

unfoldable pub weigh : (String → ℕ) → List String → ℕ
weigh f [] = 0
weigh f (x ∷ xs) = f x + weigh f xs

unfoldable drop_one : String → List String → List String
drop_one k [] = []
drop_one k (x ∷ xs) = if x == k then xs else x ∷ drop_one k xs

swap_first : (a b c n : ℕ) → n ≡ b + c → a + n ≡ b + (a + c)
swap_first a b c n h = omega arith

weigh-drop_one :
    (f : String → ℕ) (k : String) (ys : List String)
    → contains k ys ≡ true
    → weigh f ys ≡ f k + weigh f (drop_one k ys)
unfolding contains weigh drop_one
weigh-drop_one f k [] h = ground arith
weigh-drop_one f k (y ∷ ys) h = elim (Bool-cases (y == k)) [
  | inl own ↦ rw own (ap (λ z. f z + weigh f ys) ((eq_iff y k).0 own))
  | inr other ↦ rw other (swap_first (f y) (f k) _ _ (weigh-drop_one f k ys (rw other at h)))
]

contains-drop_one :
    (j k : String) (ys : List String)
    → (k == j) ≡ false
    → contains j ys ≡ true
    → contains j (drop_one k ys) ≡ true
unfolding contains drop_one
contains-drop_one j k [] differ h = h
contains-drop_one j k (y ∷ ys) differ h = elim (Bool-cases (y == k)) [
  | inl own ↦ rw own (rw (subst (λ z. (z == j) ≡ false) (sym ((eq_iff y k).0 own)) differ) at h)
  | inr other ↦ rw other (elim (Bool-cases (y == j)) [
    | inl here ↦ rw here refl
    | inr there ↦ rw there (contains-drop_one j k ys differ (rw there at h))
  ])
]

apart :
    (x j : String) (xs : List String)
    → contains x xs ≡ false
    → contains j xs ≡ true
    → (x == j) ≡ false
apart x j xs absent present = elim (Bool-cases (x == j)) [
  | inl own ↦
      absurd (
        false≢true (sym (subst (λ z. contains z xs ≡ false) ((eq_iff x j).0 own) absent) ∙ present))
  | inr other ↦ other
]

weigh-within :
    (f : String → ℕ) (xs ys : List String)
    → IsDistinct xs
    → ((k : String) → contains k xs ≡ true → contains k ys ≡ true)
    → weigh f xs ≤ weigh f ys
unfolding contains weigh IsDistinct
weigh-within f [] ys distinct within = omega arith
weigh-within f (x ∷ xs) ys (absent, distinct) within =
    let rest = weigh-within f xs (drop_one x ys) distinct (λ k h.
      let differ = apart x k xs absent h in
      contains-drop_one k x ys differ (within k (rw differ h))) in
    rw (weigh-drop_one f x ys (within x (rw eq_refl refl))) (omega arith)

-- Two lists of the same keys, each without repetitions, weigh the same.
pub weigh-same :
    (f : String → ℕ) (xs ys : List String)
    → IsDistinct xs
    → IsDistinct ys
    → ((k : String) → contains k xs ≡ contains k ys)
    → weigh f xs ≡ weigh f ys
weigh-same f xs ys distinct_xs distinct_ys same =
    let up = weigh-within f xs ys distinct_xs (λ k h. sym (same k) ∙ h) in
    let down = weigh-within f ys xs distinct_ys (λ k h. same k ∙ h) in omega arith
