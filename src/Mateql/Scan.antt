-- ===== src/Mateql/Scan.antt =====
-- The scanners of mateql/lexer.go. The -1 of the source is `none`.
pub mod Bounds
use promate.Base.{
  ℕ, zero, suc, ◌+◌, ◌-◌, ◌*◌, ◌/◌, ◌%◌, ◌^◌, ◌≤◌, ◌<◌, ◌≡◌, ◌≢◌, refl, ap, ap₂, sym, subst, ◌∙◌,
  ◌↔◌, ◌⊎◌, Bool, true, false, not, ◌&&◌, ◌||◌, ◌==◌, leb, ltb, if◌then◌else◌, List, [], ◌∷◌, ◌++◌,
  map, append-nil, append_assoc, Option, none, some, arith, All, All-append, length, take, drop,
  get_elem?, length-append, length-take, length-drop, take-append-drop, take_all, drop_all,
  take_prefix, drop_prefix, Bool-cases, Option-cases, inl, inr, ltb→lt, lt→ltb, ==_iff, ==_refl,
}
use promate.Base.Scanner.{Round, leave, advance, scan_from}
use promate.Text.{Bytes, codes, text_eq, index_byte}
use promate.Mateql.Chars.{
  backslash, is_decimal_char, is_ident_char, is_space_char, is_extend_graphite_ident_char,
}

-- `for i < len(s) && p(s[i]) { i++ }`: the bytes passed over.
unfoldable pub count_while : (ℕ → Bool) → Bytes → ℕ
count_while p [] = 0
count_while p (c ∷ s) = if p c then suc (count_while p s) else 0

unfoldable pub scan_tag_filter_op_prefix : Bytes → Option ℕ
unfolding text_eq
scan_tag_filter_op_prefix [] = none
scan_tag_filter_op_prefix (c ∷ []) = if c == b'=' then some 1 else none
scan_tag_filter_op_prefix (c ∷ d ∷ s) =
    let two = c ∷ d ∷ [] in
    if text_eq two (codes "=~") || text_eq two (codes "!~") || text_eq two (codes "!=")
    then some 2
    else if c == b'='
    then some 1
    else none

is_duration_suffix : ℕ → Bool
is_duration_suffix c =
    c == b's' || c == b'm' || c == b'h' || c == b'd' || c == b'w' || c == b'y' || c == b'i'

-- The byte at `i`, after the number.
duration_suffix : ℕ → Bytes → Option ℕ
unfolding is_duration_suffix
duration_suffix i [] = none
duration_suffix i (c ∷ rest) = if is_duration_suffix c then some (i + 1) else none

-- `rest` is `s[i:]`, after the integer part. A fraction may have no digits, since `i` is past the dot.
duration_fraction : ℕ → Bytes → Option ℕ
unfolding duration_suffix count_while
duration_fraction i [] = none
duration_fraction i (c ∷ rest) =
    let n = count_while is_decimal_char rest in
    if c == b'.' then duration_suffix (i + 1 + n) (drop n rest) else duration_suffix i (c ∷ rest)

-- `i` is the length of the sign.
duration_number : ℕ → Bytes → Option ℕ
unfolding duration_fraction
duration_number i s =
    let n = count_while is_decimal_char s in
    if i + n == 0 then none else duration_fraction (i + n) (drop n s)

unfoldable pub scan_duration : Bytes → Bool → Option ℕ
unfolding duration_number
scan_duration [] can_be_negative = none
scan_duration (c ∷ s) can_be_negative =
    if c == b'-' && can_be_negative then duration_number 1 s else duration_number 0 (c ∷ s)

is_length : Bytes → Option ℕ → Bool
is_length s none = false
is_length s (some n) = n == length s

unfoldable pub is_positive_duration : Bytes → Bool
unfolding scan_duration is_length
is_positive_duration s = is_length s (scan_duration s false)

unfoldable pub starts_with : ℕ → Bytes → Bool
starts_with c [] = false
starts_with c (x ∷ s) = x == c

unfoldable pub has_one_byte : Bytes → Bool
has_one_byte (c ∷ []) = true
has_one_byte _ = false

-- The variables of the loop of `scanCharRange`.
pub record CharRange : Type 0 where
  pub i : ℕ
  pub char_count : ℕ
  pub is_range : Bool

-- A byte escaped by a backslash: what follows the backslash, and the round over both.
escaped_char : Bytes → CharRange → Round CharRange (Option ℕ)
escaped_char [] v = leave none
escaped_char (d ∷ rest) v = advance 1 (record v { i = v.i + 2; char_count = v.char_count + 1 })

char_range_close : ℕ → CharRange → Option ℕ
char_range_close c v =
    if v.i == 1 || not (c == b']')
    then none
    else if v.is_range && not (v.char_count == 2)
    then none
    else some (v.i + 1)

char_range_round : ℕ → Bytes → CharRange → Round CharRange (Option ℕ)
unfolding escaped_char char_range_close starts_with has_one_byte is_ident_char
char_range_round c rest v =
    if is_ident_char c
    then advance 0 (record v { i = v.i + 1; char_count = v.char_count + 1 })
    else if c == backslash
    then escaped_char rest v
    else if c == b'^'
    then (if v.i == 1 then advance 0 (record v { i = v.i + 1 }) else leave none)
    else if c == b'-'
    then (if v.is_range || v.i == 1 || has_one_byte rest || starts_with b'-' rest
        then leave none
        else advance 0 (record v { i = v.i + 1; is_range = true }))
    else leave (char_range_close c v)

unfoldable pub scan_char_range : Bytes → Option ℕ
unfolding scan_from char_range_round scan_duration
scan_char_range [] = none
scan_char_range (c ∷ s) =
    if c == b'['
    then elim (scan_duration s true) [
      | some n ↦ none
      | none ↦
          scan_from (λ v. none) char_range_round s 0
            (record { i = 1; char_count = 0; is_range = false })
    ]
    else none

value_list_close : ℕ → ℕ → Option ℕ
value_list_close c i = if i == 1 || not (c == b'}') then none else some (i + 1)

-- The variable of the loop of `scanValueList` is `i`.
value_list_range : ℕ → Option ℕ → Round ℕ (Option ℕ)
value_list_range i none = leave none
value_list_range i (some j) = advance (j - 1) (i + j)

value_list_escape : ℕ → Bytes → Round ℕ (Option ℕ)
value_list_escape i [] = leave none
value_list_escape i (d ∷ rest) = advance 1 (i + 2)

value_list_round : ℕ → Bytes → ℕ → Round ℕ (Option ℕ)
unfolding value_list_close value_list_range value_list_escape starts_with has_one_byte is_ident_char
    is_space_char
value_list_round c rest i =
    if is_ident_char c || is_space_char c || c == b'-'
    then advance 0 (i + 1)
    else if c == backslash
    then value_list_escape i rest
    else if c == b','
    then (if i == 1 || has_one_byte rest || starts_with b',' rest
        then leave none
        else advance 0 (i + 1))
    else if c == b'['
    then value_list_range i (scan_char_range (c ∷ rest))
    else leave (value_list_close c i)

unfoldable pub scan_value_list : Bytes → Option ℕ
unfolding scan_from value_list_round scan_char_range
scan_value_list [] = none
scan_value_list (c ∷ []) = none
scan_value_list (c ∷ d ∷ s) =
    if c == b'{' then scan_from (λ i. none) value_list_round (d ∷ s) 0 1 else none
