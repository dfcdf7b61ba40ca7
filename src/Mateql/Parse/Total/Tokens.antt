-- ===== src/Mateql/Parse/Total/Tokens.antt =====
-- The tests of the parser on a token imply that the token is not empty.
use promate.Base.{ℕ, ◌≤◌, ◌≡◌, refl, Bool, true, false, [], ◌∷◌, arith, length}
use promate.Text.{Bytes, text_eq}
use promate.Mateql.Chars.{
  is_ident_prefix, is_string_prefix, is_positive_number_prefix, is_offset, is_with,
}
use promate.Mateql.BinaryOp.{is_binary_op}
use promate.Mateql.Lexer.{Lexer}
use promate.Mateql.Parse.{token_is}

pub token_is_nonempty :
    (l : Lexer) (c : ℕ) (t : Bytes) → token_is l (c ∷ t) ≡ true → 1 ≤ length l.token
unfolding token_is
token_is_nonempty l c t h = text_eq_nonempty l.token c t h
  where
    text_eq_nonempty : (s : Bytes) (c : ℕ) (t : Bytes) → text_eq s (c ∷ t) ≡ true → 1 ≤ length s
    text_eq_nonempty [] c t h = cc
    text_eq_nonempty (x ∷ s) c t h = omega arith

-- A test on texts that the empty text fails.
nonempty : (p : Bytes → Bool) → p [] ≡ false → (s : Bytes) → p s ≡ true → 1 ≤ length s
nonempty p e [] h = cc
nonempty p e (x ∷ s) h = omega arith

pub is_ident_prefix_nonempty : (s : Bytes) → is_ident_prefix s ≡ true → 1 ≤ length s
is_ident_prefix_nonempty = nonempty is_ident_prefix (unfold is_ident_prefix in refl)

pub is_string_prefix_nonempty : (s : Bytes) → is_string_prefix s ≡ true → 1 ≤ length s
is_string_prefix_nonempty = nonempty is_string_prefix (unfold is_string_prefix in refl)

pub is_positive_number_prefix_nonempty :
    (s : Bytes) → is_positive_number_prefix s ≡ true → 1 ≤ length s
is_positive_number_prefix_nonempty =
    nonempty is_positive_number_prefix (unfold is_positive_number_prefix in refl)

pub is_offset_nonempty : (s : Bytes) → is_offset s ≡ true → 1 ≤ length s
is_offset_nonempty = nonempty is_offset (unfold is_offset in refl)

pub is_with_nonempty : (s : Bytes) → is_with s ≡ true → 1 ≤ length s
is_with_nonempty = nonempty is_with (unfold is_with in refl)

pub is_binary_op_nonempty : (s : Bytes) → is_binary_op s ≡ true → 1 ≤ length s
is_binary_op_nonempty = nonempty is_binary_op (unfold is_binary_op in refl)
