-- ===== src/Carbon/Bounds.antt =====
-- Quotients of times and lengths of lists, as cmd/matecarbon/main.go computes them.
use native.Mathlib.Nat.{mod-add-div', mod-lt, add-mul, suc-mul, lt_of_mul-lt-mul_right}
use promate.Base.{
  sym, ◌∙◌, ℕ, zero, suc, ◌+◌, ◌-◌, ◌*◌, ◌/◌, ◌%◌, ◌≤◌, ◌<◌, ◌≡◌, refl, ap, ◌==◌, Bool-cases, inl,
  inr, ==_iff, List, arith, length,
}
use promate.Carbon.{ceil_div, make_nan_arr, search_value, fill_values}

exact_bounds : (a b : ℕ) → 0 < b → a % b ≡ 0 → (a ≤ a / b * b) × (a / b * b < a + b)
exact_bounds a b h z = (omega (arith, z, mod-add-div' a b), omega (arith, h, z, mod-add-div' a b))

next_bounds : (a b : ℕ) → 0 < b → 0 < a % b → (a ≤ suc (a / b) * b) × (suc (a / b) * b < a + b)
next_bounds a b h z = (
  omega (arith, mod-lt a h, mod-add-div' a b, suc-mul (a / b) b),
  omega (arith, z, mod-add-div' a b, suc-mul (a / b) b),
)

-- A quotient that is rounded up reaches the number, and by less than the divisor.
pub ceil_div_bounds : (a b : ℕ) → 0 < b → (a ≤ ceil_div a b * b) × (ceil_div a b * b < a + b)
unfolding ceil_div
ceil_div_bounds a b h = elim (Bool-cases (a % b == 0)) [
  | inl e ↦ rw e (exact_bounds a b h ((==_iff (a % b) 0).0 e))
  | inr e ↦ rw e (next_bounds a b h (ground (arith, e)))
]

pub div_bounds : (a b : ℕ) → 0 < b → (a / b * b ≤ a) × (a < a / b * b + b)
div_bounds a b h = (omega (arith, mod-add-div' a b), omega (arith, mod-lt a h, mod-add-div' a b))

-- Less than one step more is not one more.
pub count_le : (m n b : ℕ) → m * b < n * b + b → m ≤ n
count_le m n b h =
    let one_more : m * b < suc n * b = omega (arith, h, suc-mul n b) in
    omega (arith, lt_of_mul-lt-mul_right b one_more)

-- The part in front of a cut and the rest.
pub sub_mul : (m n b : ℕ) → m ≤ n → (n - m) * b + m * b ≡ n * b
sub_mul m n b h =
    let whole : n ≡ n - m + m = omega (arith, h) in
    sym (ap (λ k. k * b) whole ∙ add-mul (n - m) m b)

module _ {V : Type 0} (nan : V) where
  pub length-make_nan_arr : (count : ℕ) → length (make_nan_arr nan count) ≡ count
  unfolding make_nan_arr
  length-make_nan_arr zero = refl
  length-make_nan_arr (suc count) = ap suc (length-make_nan_arr count)

  pub length-fill_values :
      (count step t : ℕ) (pairs : List (ℕ × V))
      → length (fill_values nan count step t pairs) ≡ count
  unfolding fill_values
  length-fill_values zero step t pairs = refl
  length-fill_values (suc count) step t pairs =
      ap suc (length-fill_values count step (t + step) ((search_value nan nan t pairs).1))
