-- ===== src/Mateql/Parse/Total/Single.antt =====
-- With fuel above the bytes that are left, `parseSingleExpr` and `parseExpr` end.
use promate.Base.{
  ℕ, zero, suc, ◌≤◌, ◌<◌, ◌≡◌, refl, sym, subst, ◌∙◌, true, false, ◌||◌, ◌⊎◌, [], ◌∷◌, none, some,
  arith, inl, inr,
}
use promate.Text.{Bytes, codes, lower_byte}
use promate.Mateql.Literals.{LexError}
use promate.Mateql.Ast.{Expr}
use promate.Mateql.Floats.{Floats}
use promate.Mateql.Chars.{
  is_ident_prefix, is_string_prefix, is_positive_number_prefix, is_inf_or_nan, is_with,
}
use promate.Mateql.Lexer.{Lexer, size, Step, done, failed, stuck, next}
use promate.Mateql.Lexer.Size.{StepAfter, next-StepAfter}
use promate.Mateql.Parse.{Parsed, token_is}
use promate.Mateql.Parse.Parts.{Literals, with_rollup_suffix}
use promate.Mateql.Parse.Exprs.{
  parse_ident_expr, bracket_or_sign, parse_single_expr_without_rollup_suffix, parse_suffixed,
  with_case, single_level, parse_single_expr,
}
use promate.Mateql.Parse.Good.{
  Good, Good-ok, Good-err, Good-if, Good-le, Good-bind, Good-advance, Good-advance_failed,
  Good-retreat,
}
use promate.Mateql.Parse.Total.Tokens.{token_is_nonempty}
use promate.Mateql.Parse.Total.Parts.{
  parse_positive_number_expr-IsGood, parse_metric-IsGood, parse_string-IsGood,
  with_rollup_suffix-IsGood,
}
use promate.Mateql.Parse.Total.Words.{Good-at}
use promate.Mateql.Parse.Total.Exprs.{
  parse_parens_expr-Good, parse_ident_expr-Good, parse_with_expr-Good,
}

-- The word WITH starts an identifier, and nothing else.
IsIdent : Bytes → Type 0
IsIdent t =
    ((is_positive_number_prefix t || is_inf_or_nan t) ≡ false)
    × (is_string_prefix t ≡ false)
    × (is_ident_prefix t ≡ true)

first_letter : (a : ℕ) → lower_byte a ≡ b'w' → (a ≡ b'w') ⊎ (a ≡ b'W')
unfolding lower_byte
first_letter a h = ground arith

starts_with_letter :
    (a b c d : ℕ) (s : Bytes) → is_with (a ∷ b ∷ c ∷ d ∷ s) ≡ true → lower_byte a ≡ b'w'
unfolding is_with
starts_with_letter a b c d s h = ground (arith, h)

letter-IsIdent : (a b c d : ℕ) (s : Bytes) → (a ≡ b'w') ⊎ (a ≡ b'W') → IsIdent (a ∷ b ∷ c ∷ d ∷ s)
unfolding IsIdent is_positive_number_prefix is_inf_or_nan is_string_prefix is_ident_prefix
letter-IsIdent a b c d s (inl e) = rw e (refl, refl, refl)
letter-IsIdent a b c d s (inr e) = rw e (refl, refl, refl)

is_with-IsIdent : (t : Bytes) → is_with t ≡ true → IsIdent t
is_with-IsIdent [] h = unfold is_with in cc
is_with-IsIdent (a ∷ []) h = absurd (unfold is_with in ground (arith, h))
is_with-IsIdent (a ∷ b ∷ []) h = absurd (unfold is_with in ground (arith, h))
is_with-IsIdent (a ∷ b ∷ c ∷ []) h = absurd (unfold is_with in ground (arith, h))
is_with-IsIdent (a ∷ b ∷ c ∷ d ∷ s) h =
    letter-IsIdent a b c d s (first_letter a (starts_with_letter a b c d s h))

module _ {F : Type 0} (fl : Floats F) (lits : Literals F) (single : Lexer → Parsed (Expr F)) (f : ℕ)
    (single-Good : (l : Lexer) → l.error ≡ none → size l < f → Good (size l) (single l)) where
  bracket_or_sign-Good :
      (l : Lexer)
      → l.error ≡ none
      → size l ≤ f
      → Good (size l) (bracket_or_sign fl lits single (suc f) l)
  unfolding bracket_or_sign
  bracket_or_sign-Good l e b =
      Good-if (size l) (token_is l (codes "(")) _ _
        (λ _. parse_parens_expr-Good fl lits single f single-Good l e b)
        λ _.
          Good-if (size l) (token_is l (codes "{")) _ _ (λ _. parse_metric-IsGood fl lits l e)
            λ _.
              Good-if (size l) (token_is l (codes "-")) _ _
                (λ t. Good-advance (size l) l _ e λ l1 a.
                  Good-bind (size l1) (size l) (single l1) _
                    (single-Good l1 a.fine (omega (arith, a.smaller, b, token_is_nonempty l _ _ t)))
                    λ x l2 s2 e2. Good-ok _ _ l2 (omega (arith, a.smaller, s2)) e2)
                λ _.
                  Good-if (size l) (token_is l (codes "+")) _ _
                    (λ t. Good-advance (size l) l _ e λ l1 a.
                      Good-le (size l1) (size l) _ (omega (arith, a.smaller)) (
                        single-Good l1 a.fine
                          (omega (arith, a.smaller, b, token_is_nonempty l _ _ t))))
                    (λ _. Good-err _ _ _)

  without_suffix-Good :
      (l : Lexer)
      → l.error ≡ none
      → size l ≤ f
      → Good (size l) (parse_single_expr_without_rollup_suffix fl lits single (suc f) l)
  unfolding parse_single_expr_without_rollup_suffix
  without_suffix-Good l e b =
      Good-if (size l) (is_positive_number_prefix l.token || is_inf_or_nan l.token) _ _
        (λ _. parse_positive_number_expr-IsGood fl lits l e)
        λ _.
          Good-if (size l) (is_string_prefix l.token) _ _ (λ _. parse_string-IsGood F l e)
            λ _.
              Good-if (size l) (is_ident_prefix l.token) _ _
                (λ _. parse_ident_expr-Good fl lits single f single-Good l e b)
                (λ _. bracket_or_sign-Good l e b)

  parse_suffixed-Good :
      (l : Lexer)
      → l.error ≡ none
      → size l ≤ f
      → Good (size l) (parse_suffixed fl lits single (suc f) l)
  unfolding parse_suffixed
  parse_suffixed-Good l e b =
      Good-bind (size l) (size l) _ _ (without_suffix-Good l e b)
        λ x l1 s1 e1. Good-at (with_rollup_suffix x) (with_rollup_suffix-IsGood x) (size l) l1 e1 s1

  -- With an error in the lexer, the word WITH is refused.
  without_suffix_failed :
      (n : ℕ) (l : Lexer) (x : LexError)
      → l.error ≡ some x
      → IsIdent l.token
      → Good n (parse_single_expr_without_rollup_suffix fl lits single (suc f) l)
  unfolding parse_single_expr_without_rollup_suffix parse_ident_expr IsIdent
  without_suffix_failed n l x h (number, string, ident) =
      rw (number, string, ident) (Good-advance_failed n l x _ h)

  parse_suffixed_failed :
      (n : ℕ) (l : Lexer) (x : LexError)
      → l.error ≡ some x
      → IsIdent l.token
      → Good n (parse_suffixed fl lits single (suc f) l)
  unfolding parse_suffixed
  parse_suffixed_failed n l x h is =
      Good-bind n n _ _ (without_suffix_failed n l x h is)
        λ y l1 s1 e1. Good-at (with_rollup_suffix y) (with_rollup_suffix-IsGood y) n l1 e1 s1

  with_case-Good :
      (l : Lexer) (step : Step)
      → StepAfter l step
      → is_with l.token ≡ true
      → size l ≤ f
      → Good (size l) (with_case fl lits single (suc f) step)
  unfolding with_case StepAfter
  with_case-Good l (done l1) a w b =
      Good-retreat (size l) l1 l.token l.prev_tokens _ a.remembered λ l2 r.
        Good-le (size l2) (size l) _ (omega (arith, a.smaller, r.grown)) (
          Good-if (size l2) (token_is l1 (codes "(")) _ _
            (λ _.
              parse_with_expr-Good fl lits single f single-Good l2 (r.fine ∙ a.fine)
                (omega (arith, a.smaller, r.grown, b)))
            (λ _. parse_suffixed-Good l2 (r.fine ∙ a.fine) (omega (arith, a.smaller, r.grown, b))))
  with_case-Good l (failed e l1) (remembered, stays) w b =
      Good-retreat (size l) l1 l.token l.prev_tokens _ remembered λ l2 r.
        parse_suffixed_failed (size l) l2 e (r.fine ∙ stays)
          (subst IsIdent (sym r.given_back) (is_with-IsIdent l.token w))
  with_case-Good l (stuck l1) a w b = absurd a

  single_level-Good :
      (l : Lexer)
      → l.error ≡ none
      → size l ≤ f
      → Good (size l) (single_level fl lits single (suc f) l)
  unfolding single_level
  single_level-Good l e b =
      Good-if (size l) (is_with l.token) _ _
        (λ w. with_case-Good l (next l) (next-StepAfter l e) w b) (λ _. parse_suffixed-Good l e b)

module _ {F : Type 0} (fl : Floats F) (lits : Literals F) where
  pub parse_single_expr-Good :
      (f : ℕ) (l : Lexer)
      → l.error ≡ none
      → size l < f
      → Good (size l) (parse_single_expr fl lits f l)
  unfolding parse_single_expr
  parse_single_expr-Good zero l e b = absurd (omega arith)
  parse_single_expr-Good (suc f) l e b =
      single_level-Good fl lits (parse_single_expr fl lits f) f (parse_single_expr-Good f) l e
        (omega (arith, b))
