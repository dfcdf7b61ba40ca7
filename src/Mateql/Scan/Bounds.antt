-- ===== src/Mateql/Scan/Bounds.antt =====
-- How far the scanners of Mateql/Scan reach: what they pass over is there, and is not empty.
use promate.Base.{
  ℕ, suc, ◌+◌, ◌-◌, ◌≤◌, ◌≡◌, Bool, false, [], ◌∷◌, Option, none, some, arith, length, drop,
  length-drop,
}
use promate.Base.Scanner.{RoundKeeps, scan_from_inv}
use promate.Text.{Bytes}
use promate.Mateql.Chars.{is_decimal_char}
use promate.Mateql.Scan.{
  count_while, scan_duration, duration_number, duration_fraction, duration_suffix, CharRange,
  char_range_round, scan_char_range, value_list_round, scan_value_list, scan_tag_filter_op_prefix,
  value_list_range,
}

-- A scanned length: at least one byte, all of them within the text.
abbrev pub Within : ℕ → Option ℕ → Type 0
Within size none = Unit
Within size (some n) = (1 ≤ n) × (n ≤ size)

pub count_while-le : (p : ℕ → Bool) (s : Bytes) → count_while p s ≤ length s
unfolding count_while
count_while-le p [] = omega arith
count_while-le p (c ∷ s) = ground (arith, count_while-le p s)

pub scan_tag_filter_op_prefix-Within : (s : Bytes) → Within (length s) (scan_tag_filter_op_prefix s)
unfolding scan_tag_filter_op_prefix
scan_tag_filter_op_prefix-Within [] = tt
scan_tag_filter_op_prefix-Within (c ∷ []) = ground arith
scan_tag_filter_op_prefix-Within (c ∷ d ∷ s) = ground arith

duration_suffix-Within :
    (size i : ℕ) (s : Bytes) → i + length s ≤ size → Within size (duration_suffix i s)
unfolding duration_suffix
duration_suffix-Within size i [] h = tt
duration_suffix-Within size i (c ∷ s) h = ground arith

duration_fraction-Within :
    (size i : ℕ) (s : Bytes) → i + length s ≤ size → Within size (duration_fraction i s)
unfolding duration_fraction
duration_fraction-Within size i [] h = tt
duration_fraction-Within size i (c ∷ s) h =
    let n = count_while is_decimal_char s in
    ground (
      arith,
      count_while-le is_decimal_char s,
      length-drop n s,
      duration_suffix-Within size (i + 1 + n) (drop n s),
      duration_suffix-Within size i (c ∷ s),
    )

duration_number-Within :
    (size i : ℕ) (s : Bytes) → i + length s ≤ size → Within size (duration_number i s)
unfolding duration_number
duration_number-Within size i s h =
    let n = count_while is_decimal_char s in
    ground (
      arith,
      count_while-le is_decimal_char s,
      length-drop n s,
      duration_fraction-Within size (i + n) (drop n s),
    )

-- A duration is a prefix of one byte or more.
pub scan_duration-Within :
    (s : Bytes) (negative : Bool) → Within (length s) (scan_duration s negative)
unfolding scan_duration
scan_duration-Within [] negative = tt
scan_duration-Within (c ∷ s) negative = ground (
  arith,
  duration_number-Within (suc (length s)) 1 s,
  duration_number-Within (suc (length s)) 0 (c ∷ s),
)

-- The bytes before `i` and those not yet read make up the text.
abbrev RangeInv : ℕ → Bytes → CharRange → Type 0
RangeInv size rest v = (1 ≤ v.i) × (v.i + length rest ≡ size)

char_range_keep :
    (size c : ℕ) (rest : Bytes) (v : CharRange)
    → RangeInv size (c ∷ rest) v
    → RoundKeeps (RangeInv size) (Within size) rest (char_range_round c rest v)
unfolding char_range_round
char_range_keep size c [] v h = ground arith
char_range_keep size c (d ∷ rest) v h = ground arith

pub scan_char_range-Within : (s : Bytes) → Within (length s) (scan_char_range s)
unfolding scan_char_range
scan_char_range-Within [] = tt
scan_char_range-Within (c ∷ s) = ground (
  arith,
  scan_from_inv (λ v. none) char_range_round (RangeInv (suc (length s))) (Within (suc (length s)))
      (λ v h. tt) (char_range_keep (suc (length s))) s 0
      (record { i = 1; char_count = 0; is_range = false }) (omega arith, omega arith),
)

abbrev ListInv : ℕ → Bytes → ℕ → Type 0
ListInv size rest i = (1 ≤ i) × (i + length rest ≡ size)

value_list_range_keep :
    (size i c : ℕ) (rest : Bytes) (j : Option ℕ)
    → ListInv size (c ∷ rest) i
    → Within (suc (length rest)) j
    → RoundKeeps (ListInv size) (Within size) rest (value_list_range i j)
unfolding value_list_range
value_list_range_keep size i c rest none h w = tt
value_list_range_keep size i c rest (some j) h w = ground (arith, length-drop (j - 1) rest)

value_list_keep :
    (size c : ℕ) (rest : Bytes) (i : ℕ)
    → ListInv size (c ∷ rest) i
    → RoundKeeps (ListInv size) (Within size) rest (value_list_round c rest i)
unfolding value_list_round
value_list_keep size c [] i h = ground (
  arith,
  value_list_range_keep size i c [] (scan_char_range (c ∷ [])) h (scan_char_range-Within (c ∷ [])),
)
value_list_keep size c (d ∷ rest) i h = ground (
  arith,
  value_list_range_keep size i c (d ∷ rest) (scan_char_range (c ∷ d ∷ rest)) h
      (scan_char_range-Within (c ∷ d ∷ rest)),
)

pub scan_value_list-Within : (s : Bytes) → Within (length s) (scan_value_list s)
unfolding scan_value_list
scan_value_list-Within [] = tt
scan_value_list-Within (c ∷ []) = tt
scan_value_list-Within (c ∷ d ∷ s) =
    let size = suc (suc (length s)) in
    ground (
      arith,
      scan_from_inv (λ i. none) value_list_round (ListInv size) (Within size) (λ v h. tt)
          (value_list_keep size) (d ∷ s) 0 1 (omega arith, omega arith),
    )
