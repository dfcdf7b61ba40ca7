-- ===== src/Examples/Numbers.antt =====
-- The numbers and the literals that the examples put in for the floats and for strconv.
use promate.Base.{
  ℕ, ◌+◌, ◌-◌, ◌*◌, ◌/◌, ◌%◌, ◌^◌, ◌≡◌, refl, Bool, true, false, not, ◌==◌, leb, ltb, [], ◌∷◌, ◌++◌,
  Option, none, some, arith, length, take,
}
use promate.Text.{Bytes, codes, split}
use promate.Text.Decimal.{itoa, read_number}
use promate.Mateql.Ast.{Operator}
use promate.Mateql.Floats.{Floats, FloatLaws}
use promate.Mateql.Parse.Parts.{Literals}

-- Numbers with a NaN stand in for the floats.
abbrev pub Num : Type 0
Num = Option ℕ

abbrev pub both : (ℕ → ℕ → Bool) → Num → Num → Bool
both f (some a) (some b) = f a b
both f x y = false

abbrev pub combine : (ℕ → ℕ → ℕ) → Num → Num → Num
combine f (some a) (some b) = some (f a b)
combine f x y = none

abbrev pub is_none : Num → Bool
is_none none = true
is_none (some a) = false

abbrev pub num_text : Num → Bytes
unfolding itoa
num_text none = codes "NaN"
num_text (some n) = itoa n

abbrev pub nums : Floats Num
nums = record {
  nan = none;
  zero = some 0;
  one = some 1;
  is_nan = is_none;
  eq = both (λ a b. a == b);
  ne = λ x y. not (both (λ a b. a == b) x y);
  lt = both ltb;
  le = both leb;
  add = combine (λ a b. a + b);
  sub = combine (λ a b. a - b);
  mul = combine (λ a b. a * b);
  div = combine (λ a b. a / b);
  math_mod = combine (λ a b. a % b);
  math_pow = combine (λ a b. a ^ b);
  text = num_text;
}

both-none : (f : ℕ → ℕ → Bool) (x y : Num) → is_none y ≡ true → both f x y ≡ false
both-none f none y h = refl
both-none f (some a) none h = refl
both-none f (some a) (some b) h = absurd (ground (arith, h))

none-both : (f : ℕ → ℕ → Bool) (x y : Num) → is_none x ≡ true → both f x y ≡ false
none-both f none y h = refl
none-both f (some a) y h = absurd (ground (arith, h))

pub nums-FloatLaws : FloatLaws nums
nums-FloatLaws = record {
  is_nan-nan = refl;
  ne-not = λ x y. refl;
  eq-nan = both-none (λ a b. a == b);
  lt-nan = both-none ltb;
  nan-lt = none-both ltb;
}

abbrev pub op_of : Bytes → Operator
op_of w = record {
  op = w;
  is_bool = false;
  group_modifier = record { op = []; args = [] };
  join_modifier = record { op = []; args = [] };
}

abbrev pub unquoted : Bytes → Option Bytes
unquoted [] = none
unquoted (c ∷ s) = some (take (length s - 1) s)

-- The digits in front of a dot are the literals, texts are quoted by `"` and nothing else, and every
-- expression compiles.
unfoldable pub lits : Literals Num
unfolding read_number split
lits = record {
  parse_float = λ s. elim (split b'.' s) [
    | [] ↦ none
    | w ∷ ws ↦ elim (read_number w) [ none ↦ none | some n ↦ some (some n) ]
  ];
  quote = λ s. b'"' ∷ s ++ b'"' ∷ [];
  unquote = unquoted;
  compiles = λ s. true;
}
