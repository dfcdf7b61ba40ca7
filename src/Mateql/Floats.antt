-- ===== src/Mateql/Floats.antt =====
-- The 64-bit floats as mateql/binaryop and mateql/parser.go use them: IEEE 754 and the packages
-- math and strconv.
use promate.Base.{Bool, true, false, not, ◌≡◌}
use promate.Text.{Bytes}

-- The operations on a type of floats; `text` is `strconv.FormatFloat(x, 'g', -1, 64)`.
pub record Floats (F : Type 0) : Type 0 where
  pub nan : F
  pub zero : F
  pub one : F
  pub is_nan : F → Bool
  pub eq : F → F → Bool
  pub ne : F → F → Bool
  pub lt : F → F → Bool
  pub le : F → F → Bool
  pub add : F → F → F
  pub sub : F → F → F
  pub mul : F → F → F
  pub div : F → F → F
  pub math_mod : F → F → F
  pub math_pow : F → F → F
  pub text : F → Bytes

-- What IEEE 754 says of a NaN, and that `!=` is the negation of `==`.
pub record FloatLaws {F : Type 0} (fl : Floats F) : Type 0 where
  pub is_nan-nan : Floats.is_nan fl (Floats.nan fl) ≡ true
  pub ne-not : (x y : F) → Floats.ne fl x y ≡ not (Floats.eq fl x y)
  pub eq-nan : (x y : F) → Floats.is_nan fl y ≡ true → Floats.eq fl x y ≡ false
  pub lt-nan : (x y : F) → Floats.is_nan fl y ≡ true → Floats.lt fl x y ≡ false
  pub nan-lt : (x y : F) → Floats.is_nan fl x ≡ true → Floats.lt fl x y ≡ false
