-- ===== src/Mateql/Parse/Total/Exprs.antt =====
-- The parts of the recursive descent that read expressions, where `parseSingleExpr` is total one
-- level below.
use promate.Base.{ℕ, zero, suc, ◌-◌, ◌≤◌, ◌<◌, ◌≡◌, ◌∙◌, ◌||◌, List, [], ◌∷◌, none, arith, length}
use promate.Text.{Bytes, codes, text_eq, one_of}
use promate.Mateql.Ast.{Expr}
use promate.Mateql.Floats.{Floats}
use promate.Mateql.Chars.{is_ident_prefix, is_offset, is_with, is_eof}
use promate.Mateql.BinaryOp.{is_binary_op}
use promate.Mateql.Balance.{balance_binary_op}
use promate.Mateql.Functions.{is_aggr_func}
use promate.Mateql.Lexer.{Lexer, size}
use promate.Mateql.Parse.{Parsed, token_is}
use promate.Mateql.Parse.Parts.{
  Literals, WithArg, parse_operator, aggr_func_prefix, aggr_func_suffix, optional_limit,
  parse_metric, with_arg_params, check_duplicate_with_arg_names, is_reserved,
}
use promate.Mateql.Parse.Exprs.{
  operators_loop, parse_expr, parse_parens_expr, parse_arg_list_expr, parse_func_expr,
  parse_aggr_func_expr, aggr_func_or, ident_case, parse_ident_expr, with_arg_expr,
  parse_with_arg_expr, with_body, parse_with_expr,
}
use promate.Mateql.Parse.Total.Parts.{
  Good-option, parse_metric-IsGood, parse_operator-Good, aggr_func_prefix-IsGood,
  aggr_func_suffix-IsGood, optional_limit-IsGood, with_arg_params-IsGood,
}
use promate.Mateql.Parse.Good.{
  Good, Good-ok, Good-err, Good-if, Good-le, Good-bind, Good-advance, Good-retreat,
}
use promate.Mateql.Parse.Total.Tokens.{token_is_nonempty, is_binary_op_nonempty, is_with_nonempty}
use promate.Mateql.Parse.Total.Items.{items_loop-Good, parse_items-Good}
use promate.Mateql.Parse.Total.Words.{Good-at}

-- The token is among the bytes that are left.
size-token : (l : Lexer) → length l.token ≤ size l
unfolding size
size-token l = omega arith

module _ {F : Type 0} (fl : Floats F) (lits : Literals F) (single : Lexer → Parsed (Expr F)) (f : ℕ)
    (single-Good : (l : Lexer) → l.error ≡ none → size l < f → Good (size l) (single l)) where
  operators_loop-Good :
      (g : ℕ) (x : Expr F) (l : Lexer)
      → l.error ≡ none
      → size l < g
      → size l < f
      → Good (size l) (operators_loop fl lits single (suc f) g x l)
  unfolding operators_loop
  operators_loop-Good zero x l e m b = absurd (omega arith)
  operators_loop-Good (suc g) x l e m b =
      Good-if (size l) (is_binary_op l.token) _ _
        (λ t. Good-le (size l - 1) (size l) _ (omega arith) (
          Good-bind (size l - 1) (size l - 1) (parse_operator l) _
            (parse_operator-Good (size l - 1) l e (is_binary_op_nonempty l.token t) (omega arith))
            λ o l1 s1 e1.
              Good-bind (size l - 1) (size l - 1) (single l1) _
                (Good-le (size l1) (size l - 1) _ s1 (single-Good l1 e1 (omega (arith, s1))))
                λ y l2 s2 e2. Good-le (size l2) (size l - 1) _ s2 (
                  operators_loop-Good g (balance_binary_op o x y) l2 e2
                    (omega (arith, s2, m, size-token l, is_binary_op_nonempty l.token t))
                    (omega (arith, s2)))))
        (λ _. Good-ok _ x l (omega arith) e)

  pub parse_expr-Good :
      (l : Lexer)
      → l.error ≡ none
      → size l < f
      → Good (size l) (parse_expr fl lits single (suc f) l)
  unfolding parse_expr
  parse_expr-Good l e b = Good-bind (size l) (size l) (single l) _ (single-Good l e b) λ x l1 s1 e1.
      Good-le (size l1) (size l) _ s1
        (operators_loop-Good (suc f) x l1 e1 (omega (arith, s1, b)) (omega (arith, s1, b)))

  -- A list of expressions costs its opening bracket.
  pub parse_parens_expr-Good :
      (l : Lexer)
      → l.error ≡ none
      → size l ≤ f
      → Good (size l) (parse_parens_expr fl lits single (suc f) l)
  unfolding parse_parens_expr
  parse_parens_expr-Good l e b =
      Good-bind (size l) (size l) _ _
        (parse_items-Good _ b')' [] (parse_expr fl lits single (suc f)) f parse_expr-Good (suc f)
          b'(' [] l e (omega (arith, b)) b)
        λ es l1 s1 e1. Good-ok _ _ l1 s1 e1

  parse_arg_list_expr-Good :
      (l : Lexer)
      → l.error ≡ none
      → size l ≤ f
      → Good (size l) (parse_arg_list_expr fl lits single (suc f) l)
  unfolding parse_arg_list_expr
  parse_arg_list_expr-Good l e b =
      Good-bind (size l) (size l) _ _
        (parse_items-Good _ b')' [] (parse_expr fl lits single (suc f)) f parse_expr-Good (suc f)
          b'(' [] l e (omega (arith, b)) b)
        λ es l1 s1 e1. Good-ok _ _ l1 s1 e1

  parse_func_expr-Good :
      (l : Lexer)
      → l.error ≡ none
      → size l ≤ f
      → Good (size l) (parse_func_expr fl lits single (suc f) l)
  unfolding parse_func_expr
  parse_func_expr-Good l e b =
      Good-if (size l) (is_ident_prefix l.token) _ _
        (λ _. Good-advance (size l) l _ e λ l1 a.
          Good-if (size l) (token_is l1 (codes "(")) _ _
            (λ _.
              Good-bind (size l1) (size l) (parse_arg_list_expr fl lits single (suc f) l1) _
                (parse_arg_list_expr-Good l1 a.fine (omega (arith, a.smaller, b)))
                λ args l2 s2 e2. Good-ok _ _ l2 (omega (arith, a.smaller, s2)) e2)
            (λ _. Good-err _ _ _))
        (λ _. Good-err _ _ _)

  parse_aggr_func_expr-Good :
      (l : Lexer)
      → l.error ≡ none
      → size l ≤ f
      → Good (size l) (parse_aggr_func_expr fl lits single (suc f) l)
  unfolding parse_aggr_func_expr
  parse_aggr_func_expr-Good l e b =
      Good-if (size l) (is_aggr_func l.token) _ _
        (λ _. Good-advance (size l) l _ e λ l1 a.
          Good-bind (size l) (size l) (aggr_func_prefix l1) _
            (Good-at aggr_func_prefix aggr_func_prefix-IsGood (size l) l1 a.fine
              (omega (arith, a.smaller)))
            λ prefix l2 s2 e2.
              Good-bind (size l) (size l) (parse_arg_list_expr fl lits single (suc f) l2) _
                (Good-le (size l2) (size l) _ s2
                  (parse_arg_list_expr-Good l2 e2 (omega (arith, s2, b))))
                λ args l3 s3 e3.
                  Good-bind (size l) (size l) (aggr_func_suffix prefix l3) _
                    (Good-at (aggr_func_suffix prefix) (aggr_func_suffix-IsGood prefix) (size l) l3
                      e3 s3)
                    λ m l4 s4 e4.
                      Good-bind (size l) (size l) (optional_limit l4) _
                        (Good-at optional_limit optional_limit-IsGood (size l) l4 e4 s4)
                        λ n l5 s5 e5. Good-ok _ _ l5 s5 e5)
        (λ _. Good-err _ _ _)

  aggr_func_or-Good :
      (other : Lexer → Parsed (Expr F)) (l : Lexer)
      → l.error ≡ none
      → size l ≤ f
      → Good (size l) (other l)
      → Good (size l) (aggr_func_or fl lits single (suc f) other l)
  unfolding aggr_func_or
  aggr_func_or-Good other l e b h =
      Good-if (size l) (is_aggr_func l.token) _ _ (λ _. parse_aggr_func_expr-Good l e b) (λ _. h)

  ident_case-Good :
      (behind : Bytes) (l : Lexer)
      → l.error ≡ none
      → size l ≤ f
      → Good (size l) (ident_case fl lits single (suc f) behind l)
  unfolding ident_case
  ident_case-Good behind l e b =
      let metric = parse_metric-IsGood fl lits l e in
      Good-if (size l) (is_eof behind || is_offset behind) _ _ (λ _. metric)
        λ _.
          Good-if (size l) (is_ident_prefix behind) _ _
            (λ _. aggr_func_or-Good (parse_metric fl lits) l e b metric)
            λ _.
              Good-if (size l) (is_binary_op behind) _ _ (λ _. metric)
                λ _.
                  Good-if (size l) (text_eq behind (codes "(")) _ _
                    (λ _.
                      aggr_func_or-Good (parse_func_expr fl lits single (suc f)) l e b
                        (parse_func_expr-Good l e b))
                    λ _.
                      Good-if (size l)
                        (one_of behind (codes "{" ∷ codes "[" ∷ codes ")" ∷ codes "," ∷ [])) _ _
                        (λ _. metric) (λ _. Good-err _ _ _)

  pub parse_ident_expr-Good :
      (l : Lexer)
      → l.error ≡ none
      → size l ≤ f
      → Good (size l) (parse_ident_expr fl lits single (suc f) l)
  unfolding parse_ident_expr
  parse_ident_expr-Good l e b = Good-advance (size l) l _ e λ l1 a.
      Good-retreat (size l) l1 l.token l.prev_tokens _ a.remembered λ l2 r.
        Good-le (size l2) (size l) _ (omega (arith, a.smaller, r.grown))
          (ident_case-Good l1.token l2 (r.fine ∙ a.fine) (omega (arith, a.smaller, r.grown, b)))

  with_arg_expr-Good :
      (name : Bytes) (args : List Bytes) (l : Lexer)
      → l.error ≡ none
      → size l < f
      → Good (size l) (with_arg_expr fl lits single (suc f) name args l)
  unfolding with_arg_expr
  with_arg_expr-Good name args l e b =
      Good-if (size l) (token_is l (codes "=")) _ _
        (λ _. Good-advance (size l) l _ e λ l1 a.
          Good-bind (size l1) (size l) (parse_expr fl lits single (suc f) l1) _
            (parse_expr-Good l1 a.fine (omega (arith, a.smaller, b)))
            λ x l2 s2 e2. Good-ok _ _ l2 (omega (arith, a.smaller, s2)) e2)
        (λ _. Good-err _ _ _)

  parse_with_arg_expr-Good :
      (l : Lexer)
      → l.error ≡ none
      → size l < f
      → Good (size l) (parse_with_arg_expr fl lits single (suc f) l)
  unfolding parse_with_arg_expr
  parse_with_arg_expr-Good l e b =
      Good-if (size l) (is_ident_prefix l.token) _ _
        (λ _.
          Good-if (size l) (is_reserved l.token) _ _ (λ _. Good-err _ _ _)
            (λ _. Good-advance (size l) l _ e λ l1 a.
              Good-bind (size l) (size l) (with_arg_params l1) _
                (Good-at with_arg_params with_arg_params-IsGood (size l) l1 a.fine
                  (omega (arith, a.smaller)))
                λ args l2 s2 e2.
                  Good-le (size l2) (size l) _ s2
                    (with_arg_expr-Good l.token args l2 e2 (omega (arith, s2, b)))))
        (λ _. Good-err _ _ _)

  with_body-Good :
      (was : List (WithArg F)) (l : Lexer)
      → l.error ≡ none
      → size l < f
      → Good (size l) (with_body fl lits single (suc f) was l)
  unfolding with_body
  with_body-Good was l e b =
      Good-option (size l) (check_duplicate_with_arg_names was) _ _
        (λ _. Good-advance (size l) l _ e λ l1 a.
          Good-bind (size l1) (size l) (parse_expr fl lits single (suc f) l1) _
            (parse_expr-Good l1 a.fine (omega (arith, a.smaller, b)))
            λ x l2 s2 e2. Good-ok _ _ l2 (omega (arith, a.smaller, s2)) e2)
        (λ name _. Good-err _ _ _)

  pub parse_with_expr-Good :
      (l : Lexer)
      → l.error ≡ none
      → size l ≤ f
      → Good (size l) (parse_with_expr fl lits single (suc f) l)
  unfolding parse_with_expr
  parse_with_expr-Good l e b =
      Good-if (size l) (is_with l.token) _ _
        (λ w. Good-advance (size l) l _ e λ l1 a.
          Good-if (size l) (token_is l1 (codes "(")) _ _
            (λ t.
              Good-bind (size l1) (size l) _ _
                (items_loop-Good _ b')' [] (parse_with_arg_expr fl lits single (suc f)) f
                  parse_with_arg_expr-Good (suc f) l1 a.fine (token_is_nonempty l1 _ _ t)
                  (omega (arith, a.smaller, b)) (omega (arith, a.smaller, b)))
                λ was l2 s2 e2. Good-le (size l2) (size l) _ (omega (arith, a.smaller, s2)) (
                  with_body-Good was l2 e2
                    (omega (arith, a.smaller, s2, b, is_with_nonempty l.token w))))
            (λ _. Good-err _ _ _))
        (λ _. Good-err _ _ _)
