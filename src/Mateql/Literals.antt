-- ===== src/Mateql/Literals.antt =====
-- `scanString` and `scanPositiveNumber` of mateql/lexer.go.
pub mod Progress
use promate.Base.{
  ℕ, zero, suc, ◌+◌, ◌-◌, ◌*◌, ◌/◌, ◌%◌, ◌^◌, ◌≤◌, ◌<◌, ◌≡◌, ◌≢◌, refl, ap, ap₂, sym, subst, ◌∙◌,
  ◌↔◌, ◌⊎◌, Bool, true, false, not, ◌&&◌, ◌||◌, ◌==◌, leb, ltb, if◌then◌else◌, List, [], ◌∷◌, ◌++◌,
  map, append-nil, append_assoc, Option, none, some, arith, All, All-append, length, take, drop,
  get_elem?, length-append, length-take, length-drop, take-append-drop, take_all, drop_all,
  take_prefix, drop_prefix, Bool-cases, Option-cases, inl, inr, ltb→lt, lt→ltb, ==_iff, ==_refl,
}
use mathlib.Core.List.{reverse}
use promate.Base.Result.{Result, ok, err, out_of_fuel, ◌>>=◌}
use promate.Text.{Bytes, codes, index_byte}
use promate.Mateql.Chars.{backslash, is_decimal_char}
use promate.Mateql.Scan.{count_while}

-- The errors of the lexer, by what the message says; the text that a message quotes is left out.
pub data LexError : Type 0 where
  no_end_of_string no_closing_quote empty_number no_fraction no_exponent unrecognized : LexError

-- The backslashes that stand directly before the index `i`.
unfoldable pub backslashes_before : Bytes → ℕ → ℕ
unfolding count_while
backslashes_before s i = count_while (λ c. c == backslash) (reverse (take i s))

-- The loop of `scanString` over `i`; each round passes a quote, so it runs on fuel.
unfoldable pub string_loop : ℕ → Bytes → ℕ → ℕ → Result LexError Bytes
unfolding index_byte backslashes_before
string_loop zero s quote i = out_of_fuel
string_loop (suc f) s quote i = elim (index_byte (drop i s) quote) [
  | none ↦ err no_closing_quote
  | some n ↦
      let further = string_loop f s quote (i + n + 1) in
      if backslashes_before s (i + n) % 2 == 0 then ok (take (i + n + 1) s) else further
]

unfoldable pub scan_string : Bytes → Result LexError Bytes
unfolding string_loop
scan_string [] = err no_end_of_string
scan_string (quote ∷ []) = err no_end_of_string
scan_string (quote ∷ c ∷ s) = string_loop (length (quote ∷ c ∷ s)) (quote ∷ c ∷ s) quote 1

is_exponent_mark : ℕ → Bool
is_exponent_mark c = c == b'e' || c == b'E'

-- The digits at `i`, of which there has to be one.
exponent_digits : ℕ → Bytes → Result LexError ℕ
exponent_digits i s =
    let n = count_while is_decimal_char s in if n == 0 then err no_exponent else ok (i + n)

exponent : ℕ → Bytes → Result LexError ℕ
unfolding exponent_digits
exponent i [] = err no_exponent
exponent i (c ∷ s) =
    if c == b'-' || c == b'+' then exponent_digits (i + 1) s else exponent_digits i (c ∷ s)

after_fraction : ℕ → Bytes → Result LexError ℕ
unfolding exponent is_exponent_mark
after_fraction i [] = ok i
after_fraction i (c ∷ s) = if is_exponent_mark c then exponent (i + 1) s else ok i

fraction : ℕ → Bytes → Result LexError ℕ
unfolding after_fraction
fraction i s =
    let n = count_while is_decimal_char s in
    if n == 0 then err no_fraction else after_fraction (i + n) (drop n s)

-- `rest` is `s[i:]`, behind the integer part of `i` digits.
after_integer : ℕ → Bytes → Result LexError ℕ
unfolding fraction
after_integer i [] = if i == 0 then err empty_number else ok i
after_integer i (c ∷ rest) =
    if c == b'.' then fraction (i + 1) rest else after_fraction i (c ∷ rest)

-- The length of the number at the start of `s`.
unfoldable pub number_length : Bytes → Result LexError ℕ
unfolding after_integer count_while is_decimal_char
number_length s = let n = count_while is_decimal_char s in after_integer n (drop n s)

unfoldable pub scan_positive_number : Bytes → Result LexError Bytes
unfolding number_length
scan_positive_number s = do n ← number_length s; ok (take n s)
