-- ===== src/Mateql/Compose/Raw/Exprs.antt =====
-- The expressions that mateql/parser.go reads are fit for the expansion.
use promate.Base.{ℕ, zero, suc, ◌||◌, List, [], ◌∷◌, All}
use promate.Text.{Bytes, codes, text_eq, one_of}
use promate.Mateql.Chars.{
  is_ident_prefix, is_string_prefix, is_positive_number_prefix, is_inf_or_nan, is_offset, is_with,
  is_eof,
}
use promate.Mateql.BinaryOp.{is_binary_op}
use promate.Mateql.Functions.{is_aggr_func}
use promate.Mateql.Floats.{Floats}
use promate.Mateql.Ast.{Expr, parens_expr, func_expr, with_expr}
use promate.Mateql.Lexer.{Lexer, Step, done, failed, stuck, next}
use promate.Mateql.Parse.{Parsed, advance, retreat, token_is}
use promate.Mateql.Parse.Parts.{
  Literals, exprs_of, WithArg, with_args_of, parse_operator, aggr_func_prefix, aggr_func_suffix,
  optional_limit, with_arg_params, is_reserved, check_duplicate_with_arg_names, parse_metric,
  unary_minus,
}
use promate.Mateql.Parse.Exprs.{
  operators_loop, parse_expr, parse_parens_expr, parse_arg_list_expr, parse_func_expr,
  parse_aggr_func_expr, aggr_func_or, ident_case, parse_ident_expr, with_arg_expr,
  parse_with_arg_expr, with_body, parse_with_expr, bracket_or_sign,
  parse_single_expr_without_rollup_suffix, parse_suffixed, with_case, single_level,
  parse_single_expr,
}
use promate.Mateql.Expand.Fine.{IsKnown, Raw, RawArgs}
use promate.Mateql.Compose.Yields.{
  Yields, Yields-ok, Yields-err, Yields-panic, Yields-if, Yields-elim, Yields-any, Yields-bind,
  items_loop-Yields, parse_items-Yields,
}
use promate.Mateql.Compose.Raw.Parts.{
  exprs_of-Raw, RawEntry, with_args_of-Raw, balance_binary_op-Raw, with_rollup_suffix-Raw,
  parse_string-Raw, parse_positive_number_expr-Raw, parse_metric-Raw, unary_minus-Raw,
  parse_operator-IsKnown,
}

module _ {F : Type 0} (fl : Floats F) (lits : Literals F) where
  module _ (single : Lexer → Parsed (Expr F)) (f : ℕ)
      (single-Raw : (l : Lexer) → Yields Raw (single l)) where
    operators_loop-Raw :
        (g : ℕ) (e : Expr F) (l : Lexer)
        → Raw e
        → Yields Raw (operators_loop fl lits single f g e l)
    unfolding operators_loop
    operators_loop-Raw zero e l p = unfold Yields in tt
    operators_loop-Raw (suc g) e l p =
        Yields-if Raw (is_binary_op l.token) _ _
          (λ t. Yields-bind IsKnown Raw (parse_operator l) _ (parse_operator-IsKnown l t) λ o l1 k.
            Yields-bind Raw Raw (single l1) _ (single-Raw l1)
              λ e2 l2 q. operators_loop-Raw g _ l2 (balance_binary_op-Raw o e e2 k p q))
          λ _. Yields-ok Raw e l p

    pub parse_expr-Raw : (l : Lexer) → Yields Raw (parse_expr fl lits single f l)
    unfolding parse_expr
    parse_expr-Raw l =
        Yields-bind Raw Raw (single l) _ (single-Raw l) λ e l1 p. operators_loop-Raw f e l1 p

    parse_parens_expr-Raw : (l : Lexer) → Yields Raw (parse_parens_expr fl lits single f l)
    unfolding parse_parens_expr Raw
    parse_parens_expr-Raw l =
        Yields-bind (All Raw) Raw _ _
          (parse_items-Yields Raw (codes "parensExpr") (codes ")") (parse_expr fl lits single f)
            parse_expr-Raw f (codes "(") l)
          λ es l1 ps. Yields-ok Raw (parens_expr (exprs_of es)) l1 (exprs_of-Raw es ps)

    parse_arg_list_expr-Raw : (l : Lexer) → Yields RawArgs (parse_arg_list_expr fl lits single f l)
    unfolding parse_arg_list_expr
    parse_arg_list_expr-Raw l =
        Yields-bind (All Raw) RawArgs _ _
          (parse_items-Yields Raw (codes "argList") (codes ")") (parse_expr fl lits single f)
            parse_expr-Raw f (codes "(") l)
          λ es l1 ps. Yields-ok RawArgs (exprs_of es) l1 (exprs_of-Raw es ps)

    parse_func_expr-Raw : (l : Lexer) → Yields Raw (parse_func_expr fl lits single f l)
    unfolding parse_func_expr Raw
    parse_func_expr-Raw l =
        Yields-if Raw (is_ident_prefix l.token) _ _
          (λ _. Yields-any Raw (advance l) _ λ l1.
            Yields-if Raw (token_is l1 (codes "(")) _ _
              (λ _.
                Yields-bind RawArgs Raw _ _ (parse_arg_list_expr-Raw l1)
                  λ args l2 ps. Yields-ok Raw (func_expr l.token args) l2 ps)
              λ _. Yields-err Raw _)
          λ _. Yields-err Raw _

    parse_aggr_func_expr-Raw : (l : Lexer) → Yields Raw (parse_aggr_func_expr fl lits single f l)
    unfolding parse_aggr_func_expr Raw
    parse_aggr_func_expr-Raw l =
        Yields-if Raw (is_aggr_func l.token) _ _
          (λ _. Yields-any Raw (advance l) _ λ l1.
            Yields-any Raw (aggr_func_prefix l1) _ λ (prefix, l2).
              Yields-bind RawArgs Raw _ _ (parse_arg_list_expr-Raw l2) λ args l3 ps.
                Yields-any Raw (aggr_func_suffix prefix l3) _
                  λ (m, l4). Yields-any Raw (optional_limit l4) _ λ (n, l5). Yields-ok Raw _ l5 ps)
          λ _. Yields-err Raw _

    aggr_func_or-Raw :
        (other : Lexer → Parsed (Expr F)) (l : Lexer)
        → Yields Raw (other l)
        → Yields Raw (aggr_func_or fl lits single f other l)
    unfolding aggr_func_or
    aggr_func_or-Raw other l h =
        Yields-if Raw (is_aggr_func l.token) _ _ (λ _. parse_aggr_func_expr-Raw l) λ _. h

    ident_case-Raw :
        (behind : Bytes) (l : Lexer) → Yields Raw (ident_case fl lits single f behind l)
    unfolding ident_case
    ident_case-Raw behind l =
        let metric = parse_metric-Raw fl lits l in
        Yields-if Raw (is_eof behind || is_offset behind) _ _ (λ _. metric)
          λ _.
            Yields-if Raw (is_ident_prefix behind) _ _
              (λ _. aggr_func_or-Raw (parse_metric fl lits) l metric)
              λ _.
                Yields-if Raw (is_binary_op behind) _ _ (λ _. metric)
                  λ _.
                    Yields-if Raw (text_eq behind (codes "(")) _ _
                      (λ _.
                        aggr_func_or-Raw (parse_func_expr fl lits single f) l
                          (parse_func_expr-Raw l))
                      λ _.
                        Yields-if Raw
                          (one_of behind (codes "{" ∷ codes "[" ∷ codes ")" ∷ codes "," ∷ [])) _ _
                          (λ _. metric) λ _. Yields-err Raw _

    parse_ident_expr-Raw : (l : Lexer) → Yields Raw (parse_ident_expr fl lits single f l)
    unfolding parse_ident_expr
    parse_ident_expr-Raw l =
        Yields-any Raw (advance l) _
          λ l1. Yields-any Raw (retreat l1) _ λ l2. ident_case-Raw l1.token l2

    with_arg_expr-Raw :
        (name : Bytes) (args : List Bytes) (l : Lexer)
        → Yields RawEntry (with_arg_expr fl lits single f name args l)
    unfolding with_arg_expr
    with_arg_expr-Raw name args l =
        Yields-if RawEntry (token_is l (codes "=")) _ _
          (λ _. Yields-any RawEntry (advance l) _ λ l1.
            Yields-bind Raw RawEntry _ _ (parse_expr-Raw l1) λ e l2 p. Yields-ok RawEntry _ l2 p)
          λ _. Yields-err RawEntry _

    pub parse_with_arg_expr-Raw :
        (l : Lexer) → Yields RawEntry (parse_with_arg_expr fl lits single f l)
    unfolding parse_with_arg_expr
    parse_with_arg_expr-Raw l =
        Yields-if RawEntry (is_ident_prefix l.token) _ _
          (λ _.
            Yields-if RawEntry (is_reserved l.token) _ _ (λ _. Yields-err RawEntry _)
              λ _. Yields-any RawEntry (advance l) _ λ l1.
                Yields-any RawEntry (with_arg_params l1) _
                  λ (args, l2). with_arg_expr-Raw l.token args l2)
          λ _. Yields-err RawEntry _

    with_body-Raw :
        (was : List (WithArg F)) (l : Lexer)
        → All RawEntry was
        → Yields Raw (with_body fl lits single f was l)
    unfolding with_body Raw
    with_body-Raw was l ps =
        Yields-elim Raw (check_duplicate_with_arg_names was) _ _
          (Yields-any Raw (advance l) _ λ l1. Yields-bind Raw Raw _ _ (parse_expr-Raw l1) λ e l2 p.
            Yields-ok Raw (with_expr (with_args_of was) e) l2 (with_args_of-Raw was ps, p))
          λ name. Yields-err Raw _

    parse_with_expr-Raw : (l : Lexer) → Yields Raw (parse_with_expr fl lits single f l)
    unfolding parse_with_expr
    parse_with_expr-Raw l =
        Yields-if Raw (is_with l.token) _ _
          (λ _. Yields-any Raw (advance l) _ λ l1.
            Yields-if Raw (token_is l1 (codes "(")) _ _
              (λ _.
                Yields-bind (All RawEntry) Raw _ _
                  (items_loop-Yields RawEntry (codes "withExpr") (codes ")")
                    (parse_with_arg_expr fl lits single f) parse_with_arg_expr-Raw f l1)
                  λ was l2 ps. with_body-Raw was l2 ps)
              λ _. Yields-err Raw _)
          λ _. Yields-err Raw _

    bracket_or_sign-Raw : (l : Lexer) → Yields Raw (bracket_or_sign fl lits single f l)
    unfolding bracket_or_sign
    bracket_or_sign-Raw l =
        Yields-if Raw (token_is l (codes "(")) _ _ (λ _. parse_parens_expr-Raw l)
          λ _.
            Yields-if Raw (token_is l (codes "{")) _ _ (λ _. parse_metric-Raw fl lits l)
              λ _.
                Yields-if Raw (token_is l (codes "-")) _ _
                  (λ _. Yields-any Raw (advance l) _ λ l1.
                    Yields-bind Raw Raw (single l1) _ (single-Raw l1) λ e l2 p.
                      Yields-ok Raw (unary_minus fl lits e) l2 (unary_minus-Raw fl lits e p))
                  λ _.
                    Yields-if Raw (token_is l (codes "+")) _ _
                      (λ _. Yields-any Raw (advance l) _ λ l1. single-Raw l1) λ _. Yields-err Raw _

    without_suffix-Raw :
        (l : Lexer) → Yields Raw (parse_single_expr_without_rollup_suffix fl lits single f l)
    unfolding parse_single_expr_without_rollup_suffix
    without_suffix-Raw l =
        Yields-if Raw (is_positive_number_prefix l.token || is_inf_or_nan l.token) _ _
          (λ _. parse_positive_number_expr-Raw fl lits l)
          λ _.
            Yields-if Raw (is_string_prefix l.token) _ _ (λ _. parse_string-Raw F l)
              λ _.
                Yields-if Raw (is_ident_prefix l.token) _ _ (λ _. parse_ident_expr-Raw l)
                  λ _. bracket_or_sign-Raw l

    parse_suffixed-Raw : (l : Lexer) → Yields Raw (parse_suffixed fl lits single f l)
    unfolding parse_suffixed
    parse_suffixed-Raw l =
        Yields-bind Raw Raw _ _ (without_suffix-Raw l) λ e l1 p. with_rollup_suffix-Raw e l1 p

    with_case-Raw : (s : Step) → Yields Raw (with_case fl lits single f s)
    unfolding with_case
    with_case-Raw (done l1) = Yields-any Raw (retreat l1) _ λ l2.
        Yields-if Raw (token_is l1 (codes "(")) _ _ (λ _. parse_with_expr-Raw l2)
          λ _. parse_suffixed-Raw l2
    with_case-Raw (failed e l1) = Yields-any Raw (retreat l1) _ λ l2. parse_suffixed-Raw l2
    with_case-Raw (stuck l1) = Yields-panic Raw

    pub single_level-Raw : (l : Lexer) → Yields Raw (single_level fl lits single f l)
    unfolding single_level
    single_level-Raw l =
        Yields-if Raw (is_with l.token) _ _ (λ _. with_case-Raw (next l)) λ _. parse_suffixed-Raw l

  -- Strings and metrics that are read are still to be expanded, and operators are in the table.
  pub parse_single_expr-Raw : (f : ℕ) (l : Lexer) → Yields Raw (parse_single_expr fl lits f l)
  unfolding parse_single_expr
  parse_single_expr-Raw zero l = unfold Yields in tt
  parse_single_expr-Raw (suc f) l =
      single_level-Raw (parse_single_expr fl lits f) (suc f) (parse_single_expr-Raw f) l
