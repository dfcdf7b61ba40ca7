-- ===== src/Text/Decimal.antt =====
-- Decimal numbers: `strconv.Itoa`, `strconv.Atoi` and the verb %d of fmt, on a 64-bit int.
use promate.Base.{
  ℕ, zero, suc, ◌+◌, ◌-◌, ◌*◌, ◌/◌, ◌%◌, ◌^◌, ◌≤◌, ◌<◌, ◌≡◌, ◌≢◌, refl, ◌∙◌, Bool, ◌&&◌, ◌==◌, leb,
  ltb, if◌then◌else◌, [], ◌∷◌, Option, none, some, arith, All,
}
use promate.Base.Int.{ℤ, pos, negsuc}
use promate.Text.{Bytes}

-- The digits of a number in front of `out`; each round takes one digit off its end.
digits : ℕ → ℕ → Bytes → Bytes
digits zero n out = out
digits (suc f) n out =
    let rest = digits f (n / 10) ((b'0' + n % 10) ∷ out) in
    if ltb n 10 then (b'0' + n) ∷ out else rest

-- A number has fewer digits than its successor counts.
unfoldable pub itoa : ℕ → Bytes
unfolding digits
itoa n = digits (suc n) n []

unfoldable pub format_int : ℤ → Bytes
unfolding itoa
format_int (pos n) = itoa n
format_int (negsuc n) = b'-' ∷ itoa (suc n)

unfoldable pub is_digit : ℕ → Bool
is_digit c = leb b'0' c && leb c b'9'

-- The number that digits spell behind `acc`; `none` where a byte is no digit.
unfoldable pub read_digits : ℕ → Bytes → Option ℕ
unfolding is_digit
read_digits acc [] = some acc
read_digits acc (c ∷ s) =
    let rest = read_digits (acc * 10 + (c - b'0')) s in if is_digit c then rest else none

-- One digit or more.
unfoldable pub read_number : Bytes → Option ℕ
unfolding read_digits
read_number [] = none
read_number (c ∷ s) = read_digits 0 (c ∷ s)

abbrev pub max_int : ℕ
max_int = 2 ^ 63 - 1

as_positive : Option ℕ → Option ℤ
as_positive none = none
as_positive (some n) = if leb n max_int then some (pos n) else none

as_negative : Option ℕ → Option ℤ
as_negative none = none
as_negative (some zero) = some (pos 0)
as_negative (some (suc n)) = if leb n max_int then some (negsuc n) else none

-- `none` is a syntax error or a number out of range.
unfoldable pub atoi : Bytes → Option ℤ
unfolding read_number as_positive as_negative
atoi [] = none
atoi (c ∷ s) =
    if c == b'-'
    then as_negative (read_number s)
    else if c == b'+'
    then as_positive (read_number s)
    else as_positive (read_number (c ∷ s))

read_digits-digits :
    (f n : ℕ) (out : Bytes) → n < f → read_digits 0 (digits f n out) ≡ read_digits n out
unfolding digits read_digits
read_digits-digits zero n out h = absurd (omega arith)
read_digits-digits (suc f) n out h =
    ground (arith, read_digits-digits f (n / 10) ((b'0' + n % 10) ∷ out))

digits-ne-nil : (f n : ℕ) (out : Bytes) → 0 < f → digits f n out ≢ []
unfolding digits
digits-ne-nil zero n out h = absurd (omega arith)
digits-ne-nil (suc zero) n out h = ground arith
digits-ne-nil (suc (suc f)) n out h =
    ground (arith, digits-ne-nil (suc f) (n / 10) ((b'0' + n % 10) ∷ out))

pub itoa-ne-nil : (n : ℕ) → itoa n ≢ []
unfolding itoa
itoa-ne-nil n = digits-ne-nil (suc n) n [] (omega arith)

read_number-ne-nil : (s : Bytes) → s ≢ [] → read_number s ≡ read_digits 0 s
unfolding read_number
read_number-ne-nil [] h = absurd (h refl)
read_number-ne-nil (c ∷ s) h = refl

-- A printed number is read back.
pub read_number-itoa : (n : ℕ) → read_number (itoa n) ≡ some n
read_number-itoa n =
    read_number-ne-nil (itoa n) (itoa-ne-nil n)
    ∙ unfold itoa read_digits in read_digits-digits (suc n) n [] (omega arith)

-- Two numbers that print alike are equal.
pub itoa-injective : (m n : ℕ) → itoa m ≡ itoa n → m ≡ n
itoa-injective m n h = cc (read_number-itoa m, read_number-itoa n)

abbrev pub IsDigit : ℕ → Type 0
IsDigit c = (b'0' ≤ c) × (c ≤ b'9')

digits-IsDigit : (f n : ℕ) (out : Bytes) → n < f → All IsDigit out → All IsDigit (digits f n out)
unfolding digits
digits-IsDigit zero n out h all_out = all_out
digits-IsDigit (suc f) n out h all_out =
    ground (arith, digits-IsDigit f (n / 10) ((b'0' + n % 10) ∷ out))

pub itoa-IsDigit : (n : ℕ) → All IsDigit (itoa n)
unfolding itoa
itoa-IsDigit n = digits-IsDigit (suc n) n [] (omega arith) tt

-- A text of digits has no sign.
atoi_unsigned : (s : Bytes) → s ≢ [] → All IsDigit s → atoi s ≡ as_positive (read_number s)
unfolding atoi
atoi_unsigned [] h d = absurd (h refl)
atoi_unsigned (c ∷ s) h d = ground arith

-- The range of a 64-bit int.
abbrev pub InRange : ℤ → Type 0
InRange (pos n) = n ≤ max_int
InRange (negsuc n) = n ≤ max_int

-- An int that `Itoa` or the verb %d prints is read back by `Atoi`.
pub atoi-format_int : (z : ℤ) → InRange z → atoi (format_int z) ≡ some z
unfolding format_int
atoi-format_int (pos n) h =
    rw (atoi_unsigned (itoa n) (itoa-ne-nil n) (itoa-IsDigit n), read_number-itoa n)
      (unfold as_positive in ground arith)
atoi-format_int (negsuc n) h =
    unfold atoi in rw (read_number-itoa (suc n)) (unfold as_negative in ground arith)
