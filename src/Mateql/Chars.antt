-- ===== src/Mateql/Chars.antt =====
-- The classes of bytes and the prefix tests of mateql/lexer.go.
use promate.Base.{ℕ, Bool, true, false, ◌&&◌, ◌||◌, ◌==◌, leb, if◌then◌else◌, [], ◌∷◌}
use promate.Text.{Bytes, codes, text_eq, to_lower}

abbrev pub backslash : ℕ
backslash = b'\\'

unfoldable pub is_decimal_char : ℕ → Bool
is_decimal_char ch = leb b'0' ch && leb ch b'9'

unfoldable pub is_first_ident_char : ℕ → Bool
is_first_ident_char ch =
    if (leb b'a' ch && leb ch b'z') || (leb b'A' ch && leb ch b'Z')
    then true
    else ch == b'_' || ch == b':'

unfoldable pub is_ident_char : ℕ → Bool
unfolding is_first_ident_char is_decimal_char
is_ident_char ch = if is_first_ident_char ch then true else is_decimal_char ch || ch == b'.'

-- ' ', '\t', '\n', '\v', '\f' and '\r'
unfoldable pub is_space_char : ℕ → Bool
is_space_char ch = ch == 32 || ch == 9 || ch == 10 || ch == 11 || ch == 12 || ch == 13

unfoldable pub is_extend_graphite_ident_char : ℕ → Bool
is_extend_graphite_ident_char ch = ch == b'-' || ch == b'|' || ch == b'?'

unfoldable pub is_ident_prefix : Bytes → Bool
unfolding is_first_ident_char
is_ident_prefix [] = false
is_ident_prefix (c ∷ s) = if c == backslash then true else is_first_ident_char c

unfoldable pub is_string_prefix : Bytes → Bool
is_string_prefix [] = false
is_string_prefix (c ∷ s) = c == b'"' || c == b'\'' || c == b'`'

unfoldable pub is_positive_number_prefix : Bytes → Bool
unfolding is_decimal_char
is_positive_number_prefix [] = false
is_positive_number_prefix (c ∷ []) = is_decimal_char c
is_positive_number_prefix (c ∷ d ∷ s) =
    if is_decimal_char c then true else if c == b'.' then is_decimal_char d else false

unfoldable pub is_eof : Bytes → Bool
is_eof [] = true
is_eof (c ∷ s) = false

-- The test of the length is implied: a word of three letters is met by a text of three bytes.
unfoldable pub is_inf_or_nan : Bytes → Bool
unfolding text_eq to_lower
is_inf_or_nan (a ∷ b ∷ c ∷ []) =
    let s = to_lower (a ∷ b ∷ c ∷ []) in text_eq s (codes "inf") || text_eq s (codes "nan")
is_inf_or_nan _ = false

unfoldable pub is_offset : Bytes → Bool
unfolding text_eq to_lower
is_offset s = text_eq (to_lower s) (codes "offset")

unfoldable pub is_with : Bytes → Bool
unfolding text_eq to_lower
is_with s = text_eq (to_lower s) (codes "with")
