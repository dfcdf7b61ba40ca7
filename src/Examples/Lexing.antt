-- ===== src/Examples/Lexing.antt =====
-- Runs of the lexer and of its scanners.
use promate.Base.{ℕ, ◌≤◌, ◌≡◌, refl, true, [], ◌∷◌, none, some, arith, take}
use promate.Base.Result.{ok, err}
use promate.Text.{codes}
use promate.Mateql.Chars.{is_ident_prefix, is_decimal_char}
use promate.Mateql.Scan.{scan_duration}
use promate.Mateql.Ident.{scan_ident}
use promate.Mateql.Ident.Progress.{scan_ident_prefix}
use promate.Mateql.Escape.{append_escaped_ident, unescape_ident}
use promate.Mateql.Escape.RoundTrip.{unescape_ident-append_escaped_ident}
use promate.Mateql.Literals.{no_fraction, no_closing_quote, scan_string, scan_positive_number}
use promate.Mateql.Lexer.{Lexer, init, done, next, next_token, prev, token_at}
use promate.Mateql.Lexer.Progress.{Answers, next_token-Answers, token_at-TokenOf}
use promate.Mateql.Literals.Progress.{TokenOf}
use promate.Mateql.Lexer.Stack.{Steps, next-Steps, next-prev}

-- A Graphite path with a list and a range is one token.
graphite_path : scan_ident (codes "a.b-c.{x,y}[0-9]* + 1") ≡ ok (codes "a.b-c.{x,y}[0-9]*")
unfolding scan_ident
graphite_path = refl

-- Without a dot the minus ends the identifier.
minus_ends_ident : scan_ident (codes "a-b + 1") ≡ ok (codes "a")
unfolding scan_ident
minus_ends_ident = refl

-- A duration in brackets is no range of characters.
window_behind_path : scan_ident (codes "a.b[5m]") ≡ ok (codes "a.b")
unfolding scan_ident
window_behind_path = refl

-- Two dots end the identifier.
two_dots : scan_ident (codes "a..b") ≡ ok (codes "a")
unfolding scan_ident
two_dots = refl

negative_without_digits : scan_duration (codes "-s") true ≡ some 2
unfolding scan_duration is_decimal_char
negative_without_digits = refl

escaped_quote : scan_string (codes "'a\\'b' c") ≡ ok (codes "'a\\'b'")
unfolding scan_string
escaped_quote = refl

open_string : scan_string (codes "\"a\\\"") ≡ err no_closing_quote
unfolding scan_string
open_string = refl

exponent_number : scan_positive_number (codes "12.5e-3s") ≡ ok (codes "12.5e-3")
unfolding scan_positive_number
exponent_number = refl

no_digits_behind_dot : scan_positive_number (codes "1.x") ≡ err no_fraction
unfolding scan_positive_number
no_digits_behind_dot = refl

-- A comment and spaces are passed over.
behind_comment : next_token 30 (codes " # note\n  foo{") ≡ (codes "{", ok (codes "foo"))
unfolding next_token
behind_comment = refl

escaped_name : append_escaped_ident [] (codes "1a b") ≡ codes "\\x31a\\ b"
unfolding append_escaped_ident
escaped_name = refl

scan_ident_prefix_example :
    (n : ℕ) × (scan_ident (codes "foo.bar + 1") ≡ ok (take n (codes "foo.bar + 1")))
    × (1 ≤ n)
    × (n ≤ 11)
scan_ident_prefix_example = scan_ident_prefix (codes "foo.bar + 1") starts
  where
    starts : is_ident_prefix (codes "foo.bar + 1") ≡ true
    starts = unfold is_ident_prefix in refl

unescape_ident-append_escaped_ident_example :
    unescape_ident (append_escaped_ident [] (codes "1a b\\")) ≡ codes "1a b\\"
unescape_ident-append_escaped_ident_example =
    unescape_ident-append_escaped_ident (codes "1a b\\") (omega arith)

next_token-Answers_example :
    Answers (codes " # note\n  foo{") (next_token 30 (codes " # note\n  foo{"))
next_token-Answers_example = next_token-Answers 30 (codes " # note\n  foo{") (omega arith)

token_at-TokenOf_example : TokenOf (codes "foo{") (token_at (codes "foo{"))
token_at-TokenOf_example = token_at-TokenOf b'f' (codes "oo{")

next-Steps_example : Steps (init (codes "a + b")) (next (init (codes "a + b")))
next-Steps_example = next-Steps (init (codes "a + b"))

abbrev behind_a : Lexer
behind_a = record {
  token = codes "a";
  prev_tokens = [] ∷ [];
  next_tokens = [];
  s_orig = codes "a + b";
  s_tail = codes " + b";
  error = none;
}

reads_a : next (init (codes "a + b")) ≡ done behind_a
unfolding next init
reads_a = refl

next-prev_example :
    (back : Lexer) × (prev behind_a ≡ some back)
    × (back.token ≡ (init (codes "a + b")).token)
    × (back.prev_tokens ≡ (init (codes "a + b")).prev_tokens)
    × (next back ≡ done behind_a)
next-prev_example = next-prev (init (codes "a + b")) reads_a
