-- ===== src/Mateql/Lexer.antt =====
-- The lexer of mateql/lexer.go: its state, `Init`, `Next` and `Prev`.
pub mod Blank
pub mod Progress
pub mod Size
pub mod Stack
use promate.Base.{
  ℕ, zero, suc, ◌+◌, ◌-◌, ◌*◌, ◌/◌, ◌%◌, ◌^◌, ◌≤◌, ◌<◌, ◌≡◌, ◌≢◌, refl, ap, ap₂, sym, subst, ◌∙◌,
  ◌↔◌, ◌⊎◌, Bool, true, false, not, ◌&&◌, ◌||◌, ◌==◌, leb, ltb, if◌then◌else◌, List, [], ◌∷◌, ◌++◌,
  map, append-nil, append_assoc, Option, none, some, arith, All, All-append, length, take, drop,
  get_elem?, length-append, length-take, length-drop, take-append-drop, take_all, drop_all,
  take_prefix, drop_prefix, Bool-cases, Option-cases, inl, inr, ltb→lt, lt→ltb, ==_iff, ==_refl,
}
use promate.Base.Result.{Result, ok, err, panic, out_of_fuel}
use promate.Text.{Bytes, codes, index_byte}
use promate.Mateql.Chars.{
  is_space_char, is_ident_prefix, is_string_prefix, is_positive_number_prefix,
}
use promate.Mateql.Scan.{count_while, scan_tag_filter_op_prefix, scan_duration}
use promate.Mateql.Literals.{LexError, unrecognized, scan_string, scan_positive_number}
use promate.Mateql.Ident.{scan_ident}
use promate.Mateql.BinaryOp.{scan_binary_op_prefix}

-- The slices `prevTokens` and `nextTokens` are stacks; their last item stands first here.
pub record Lexer : Type 0 where
  pub token : Bytes
  pub prev_tokens : List Bytes
  pub next_tokens : List Bytes
  pub s_orig : Bytes
  pub s_tail : Bytes
  pub error : Option LexError

unfoldable pub init : Bytes → Lexer
init s = record {
  token = [];
  prev_tokens = [];
  next_tokens = [];
  s_orig = s;
  s_tail = s;
  error = none;
}

is_punctuation : ℕ → Bool
is_punctuation c =
    c == b'{' || c == b'}' || c == b'[' || c == b']' || c == b'(' || c == b')' || c == b','

number_token : Bytes → Result LexError Bytes
unfolding is_positive_number_prefix scan_positive_number
number_token s = if is_positive_number_prefix s then scan_positive_number s else err unrecognized

duration_token : Bytes → Result LexError Bytes
unfolding number_token scan_duration
duration_token s = elim (scan_duration s false) [ some n ↦ ok (take n s) | none ↦ number_token s ]

filter_op_token : Bytes → Result LexError Bytes
unfolding duration_token scan_tag_filter_op_prefix
filter_op_token s = elim (scan_tag_filter_op_prefix s) [
  | some n ↦ ok (take n s)
  | none ↦ duration_token s
]

binary_op_token : Bytes → Result LexError Bytes
unfolding filter_op_token scan_binary_op_prefix
binary_op_token s =
    let n = scan_binary_op_prefix s in if ltb 0 n then ok (take n s) else filter_op_token s

-- The token at the start of a text that is not empty and starts with no space or comment.
unfoldable pub token_at : Bytes → Result LexError Bytes
unfolding is_punctuation binary_op_token scan_ident scan_string is_ident_prefix is_string_prefix
token_at [] = ok []
token_at (c ∷ rest) =
    if is_punctuation c
    then ok (c ∷ [])
    else if is_ident_prefix (c ∷ rest)
    then scan_ident (c ∷ rest)
    else if is_string_prefix (c ∷ rest)
    then scan_string (c ∷ rest)
    else binary_op_token (c ∷ rest)

unfoldable pub skip_spaces : Bytes → Bytes
unfolding count_while is_space_char
skip_spaces s = drop (count_while is_space_char s) s

-- What is left of the text behind a token, with the outcome.
found : Bytes → Result LexError Bytes → Bytes × Result LexError Bytes
found s (ok token) = (drop (length token) s, ok token)
found s (err e) = (s, err e)
found s panic = (s, panic)
found s out_of_fuel = (s, out_of_fuel)

abbrev pub Outcome : Type 0
Outcome = Bytes × Result LexError Bytes

-- Behind a comment, which ends with its line, the scan starts again.
after_comment : (Bytes → Outcome) → Bytes → Bytes → Option ℕ → Outcome
after_comment again s rest none = (s, ok [])
after_comment again s rest (some n) = again (drop (n + 1) rest)

after_spaces : (Bytes → Outcome) → Bytes → Outcome
unfolding found token_at index_byte after_comment
after_spaces again [] = ([], ok [])
after_spaces again (c ∷ rest) =
    if c == b'#'
    then after_comment again (c ∷ rest) rest (index_byte rest 10)
    else found (c ∷ rest) (token_at (c ∷ rest))

-- The method `next`: the new `sTail`, and the token or an error. A comment costs a unit of fuel.
unfoldable pub next_token : ℕ → Bytes → Outcome
unfolding after_spaces skip_spaces
next_token zero s = (s, out_of_fuel)
next_token (suc f) s = after_spaces (next_token f) (skip_spaces s)

-- What a call of `Next` ends with: the new state and the error that it returns, if any.
pub data Step : Type 0 where
  done : Lexer → Step
  failed : LexError → Lexer → Step
  stuck : Lexer → Step

finish : Lexer → Bytes × Result LexError Bytes → Step
finish lex (tail, ok token) = done (record lex { token = token; s_tail = tail })
finish lex (tail, err e) = failed e (record lex { s_tail = tail; error = some e })
finish lex (tail, panic) = stuck lex
finish lex (tail, out_of_fuel) = stuck lex

advance_lexer : List Bytes → Lexer → Step
unfolding finish next_token
advance_lexer [] lex = finish lex (next_token (suc (length lex.s_tail)) lex.s_tail)
advance_lexer (t ∷ ts) lex = done (record lex { token = t; next_tokens = ts })

next_unless : Option LexError → Lexer → Step
unfolding advance_lexer
next_unless (some e) lex = failed e lex
next_unless none lex =
    advance_lexer lex.next_tokens (record lex { prev_tokens = lex.token ∷ lex.prev_tokens })

-- The method `Next`.
unfoldable pub next : Lexer → Step
unfolding next_unless
next lex = next_unless lex.error lex

-- The method `Prev`; without an earlier token it indexes out of range.
unfoldable pub prev : Lexer → Option Lexer
prev lex = elim lex.prev_tokens [
  | [] ↦ none
  | t ∷ ts ↦
      some (record lex { token = t; prev_tokens = ts; next_tokens = lex.token ∷ lex.next_tokens })
]

-- The bytes that a lexer has left, with its tokens.
unfoldable pub bytes_of : List Bytes → ℕ
bytes_of [] = 0
bytes_of (t ∷ ts) = length t + bytes_of ts

unfoldable pub size : Lexer → ℕ
unfolding bytes_of
size l = length l.token + (bytes_of l.next_tokens + length l.s_tail)
