-- ===== src/Mateql/Literals/Progress.antt =====
-- The scanners of strings and numbers return a prefix of the text or an error, with the fuel given.
use promate.Base.{
  ℕ, zero, suc, ◌+◌, ◌%◌, ◌≤◌, ◌<◌, ◌≡◌, refl, ◌⊎◌, true, ◌==◌, if◌then◌else◌, [], ◌∷◌, Option,
  none, some, arith, length, take, drop, length-drop, Bool-cases, inl, inr,
}
use promate.Base.Result.{Result, ok, err, ◌>>=◌, panic, out_of_fuel}
use promate.Text.{Bytes, index_byte}
use promate.Text.Laws.{index_byte-Below, Below}
use promate.Mateql.Chars.{is_decimal_char, is_positive_number_prefix}
use promate.Mateql.Scan.{count_while}
use promate.Mateql.Scan.Bounds.{count_while-le}
use promate.Mateql.Literals.{
  LexError, no_closing_quote, string_loop, scan_string, backslashes_before, number_length,
  scan_positive_number, after_integer, fraction, after_fraction, exponent, exponent_digits,
}

-- A token that is a prefix of `s` of one byte or more, or an error; no panic, and no lack of fuel.
abbrev pub TokenOf : Bytes → Result LexError Bytes → Type 0
TokenOf s (ok token) = (n : ℕ) × (token ≡ take n s) × (1 ≤ n) × (n ≤ length s)
TokenOf s (err e) = Unit
TokenOf s panic = ⊥
TokenOf s out_of_fuel = ⊥

string_loop-TokenOf :
    (f : ℕ) (s : Bytes) (quote i : ℕ)
    → length s < f + i
    → i ≤ length s
    → TokenOf s (string_loop f s quote i)
unfolding string_loop
string_loop-TokenOf zero s quote i h k = absurd (omega arith)
string_loop-TokenOf (suc f) s quote i h k =
    go (index_byte (drop i s) quote) (index_byte-Below (drop i s) quote)
      (string_loop-TokenOf f s quote)
  where
    go :
        (o : Option ℕ)
        → Below (length (drop i s)) o
        → ((j : ℕ) → length s < f + j → j ≤ length s → TokenOf s (string_loop f s quote j))
        → TokenOf s (elim o [
          | none ↦ err no_closing_quote
          | some n ↦
              let further = string_loop f s quote (i + n + 1) in
              if backslashes_before s (i + n) % 2 == 0 then ok (take (i + n + 1) s) else further
        ])
    go none b ih = tt
    go (some n) b ih = elim (Bool-cases (backslashes_before s (i + n) % 2 == 0)) [
      | inl e ↦ rw e (i + n + 1, refl, omega arith, omega (arith, length-drop i s))
      | inr e ↦ rw e (ih (i + n + 1) (omega arith) (omega (arith, length-drop i s)))
    ]

-- `scanString` ends within its fuel, with a prefix of the text or an error.
pub scan_string-TokenOf : (s : Bytes) → TokenOf s (scan_string s)
unfolding scan_string
scan_string-TokenOf [] = tt
scan_string-TokenOf (q ∷ []) = tt
scan_string-TokenOf (q ∷ c ∷ s) =
    string_loop-TokenOf (suc (suc (length s))) (q ∷ c ∷ s) q 1 (omega arith) (omega arith)

-- A length of one or more within `size`, or an error.
abbrev LengthIn : ℕ → Result LexError ℕ → Type 0
LengthIn size (ok n) = (1 ≤ n) × (n ≤ size)
LengthIn size (err e) = Unit
LengthIn size panic = ⊥
LengthIn size out_of_fuel = ⊥

exponent_digits_in :
    (size i : ℕ) (s : Bytes) → i + length s ≤ size → LengthIn size (exponent_digits i s)
unfolding exponent_digits
exponent_digits_in size i s h = ground (arith, count_while-le is_decimal_char s)

exponent_in : (size i : ℕ) (s : Bytes) → i + length s ≤ size → LengthIn size (exponent i s)
unfolding exponent
exponent_in size i [] h = tt
exponent_in size i (c ∷ s) h =
    ground (arith, exponent_digits_in size (i + 1) s, exponent_digits_in size i (c ∷ s))

after_fraction_in :
    (size i : ℕ) (s : Bytes) → 1 ≤ i → i + length s ≤ size → LengthIn size (after_fraction i s)
unfolding after_fraction
after_fraction_in size i [] k h = ground arith
after_fraction_in size i (c ∷ s) k h = ground (arith, exponent_in size (i + 1) s)

fraction_in : (size i : ℕ) (s : Bytes) → i + length s ≤ size → LengthIn size (fraction i s)
unfolding fraction
fraction_in size i s h =
    let n = count_while is_decimal_char s in
    ground (
      arith,
      count_while-le is_decimal_char s,
      length-drop n s,
      after_fraction_in size (i + n) (drop n s),
    )

-- What follows starts with a dot where the integer part is empty.
after_integer_in :
    (size i : ℕ) (s : Bytes)
    → (1 ≤ i) ⊎ ((t : Bytes) × (s ≡ b'.' ∷ t))
    → i + length s ≤ size
    → LengthIn size (after_integer i s)
unfolding after_integer
after_integer_in size i [] d h = ground arith
after_integer_in size i (c ∷ s) (inl k) h =
    ground (arith, fraction_in size (i + 1) s, after_fraction_in size i (c ∷ s) k)
after_integer_in size i (c ∷ s) (inr (t, e)) h = ground (arith, fraction_in size (i + 1) s)

number_start :
    (s : Bytes)
    → is_positive_number_prefix s ≡ true
    → let n = count_while is_decimal_char s in (1 ≤ n) ⊎ ((t : Bytes) × (drop n s ≡ b'.' ∷ t))
unfolding is_positive_number_prefix count_while
number_start [] h = cc
number_start (c ∷ []) h = inl (ground arith)
number_start (c ∷ d ∷ s) h = elim (Bool-cases (is_decimal_char c)) [
  | inl e ↦ inl (ground arith)
  | inr e ↦ inr (d ∷ s, ground arith)
]

number_length_in :
    (s : Bytes) → is_positive_number_prefix s ≡ true → LengthIn (length s) (number_length s)
unfolding number_length
number_length_in s h =
    let n = count_while is_decimal_char s in
    after_integer_in (length s) n (drop n s) (number_start s h)
      (omega (arith, length-drop n s, count_while-le is_decimal_char s))

number-TokenOf :
    (s : Bytes) (r : Result LexError ℕ)
    → LengthIn (length s) r
    → TokenOf s (do n ← r; ok (take n s))
number-TokenOf s (ok n) h = (n, refl, h.0, h.1)
number-TokenOf s (err e) h = tt
number-TokenOf s panic h = h
number-TokenOf s out_of_fuel h = h

-- Where a number starts, `scanPositiveNumber` returns a prefix of the text or an error.
pub scan_positive_number-TokenOf :
    (s : Bytes) → is_positive_number_prefix s ≡ true → TokenOf s (scan_positive_number s)
unfolding scan_positive_number
scan_positive_number-TokenOf s h = number-TokenOf s (number_length s) (number_length_in s h)
